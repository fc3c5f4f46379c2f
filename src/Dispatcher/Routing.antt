-- ===== src/Dispatcher/Routing.antt =====
-- Which handler a chat line runs, from its bytes on.
use twitch_bot.Prelude.{
  suc, ◌+◌, ◌-◌, ◌≡◌, refl, ap, ◌∙◌, Bool, true, false, inl, inr, Option, none, some, List, [], ◌∷◌,
  ◌++◌, arith, if◌then◌else◌, Bool-cases, Option-cases, length, length-append, take, drop,
  take-append_left, drop-append_cons,
}
use twitch_bot.Prelude.Bytes.{Bytes, codes, equal, equal_iff, sp}
use twitch_bot.Prelude.Search.{find, find-append, Lacks, Lacks-append, Lacks-of_find}
use twitch_bot.Prelude.Assoc.{lookup}
use twitch_bot.Irc.Message.{IrcMessage}
use twitch_bot.Irc.Parse.{parse_irc_line}
use twitch_bot.Irc.Parse.Print.{print_irc_line, IsPrintable}
use twitch_bot.Irc.Parse.RoundTrip.{parse-print_irc_line}
use twitch_bot.Dispatcher.{
  Dispatcher, Call, run, CommandSplit, normalise_channel, extract_user, split_command, lookup,
  register_command, notify_all, route_text, dispatch,
}

-- `!name args`
abbrev pub command_text : Bytes → Bytes → Bytes
command_text name args = b'!' ∷ (name ++ sp ∷ args)

split_command_text :
    (name args : Bytes)
    → Lacks sp name
    → split_command (command_text name args) ≡ record { cmd = name; args = args }
unfolding split_command find
split_command_text name args h =
    let whole : length (command_text name args) ≡ length name + length args + 2 =
      omega (arith, length-append name (sp ∷ args)) in
    let cmd : take (suc (length name) - 1) (name ++ sp ∷ args) ≡ name =
      ap (λ n. take n (name ++ sp ∷ args)) {x = suc (length name) - 1} {y = length name}
        (omega arith)
      ∙ take-append_left name (sp ∷ args) in
    let rest : drop (suc (length name) + 1) (command_text name args) ≡ args =
      ap (λ n. drop n (command_text name args)) {x = suc (length name) + 1}
        {y = suc (length name + 1)} (omega arith)
      ∙ drop-append_cons name sp args in
    ground (arith, whole, cmd, rest, find-append sp name args h)

extract_user-login :
    (login host : Bytes) → Lacks b'!' login → extract_user (login ++ b'!' ∷ host) ≡ login
unfolding extract_user
extract_user-login login host h =
    rw (extract_user, find-append b'!' login host h) (take-append_left login (b'!' ∷ host))

module _ {H : Type 0} where
  lookup_other :
      (name command : Bytes) (handler : H) (cs : List (Bytes × H))
      → equal command name ≡ false
      → lookup name ((command, handler) ∷ cs) ≡ lookup name cs
  unfolding lookup
  lookup_other name command handler cs ne = ground (arith, ne)

  -- What a name stands for after a registration.
  abbrev pub after_register : Option H → Bool → H → Option H
  after_register (some h) same handler = some h
  after_register none same handler = if same then some handler else none

module _ {H L : Type 0} where
  -- A registration gives a name its handler if the name had none, and changes nothing else: the first
  -- registration of a name stays.
  pub lookup-register_command :
      (d : Dispatcher H L) (command name : Bytes) (handler : H)
      → lookup name (register_command d command handler).commands
        ≡ after_register (lookup name d.commands) (equal command name) handler
  unfolding register_command lookup
  lookup-register_command d command name handler = elim (Option-cases (lookup command d.commands)) [
    | inl free ↦ elim (Bool-cases (equal command name)) [
      | inl same ↦ ground (arith, free, same, (equal_iff command name).0 same)
      | inr other ↦ ground (arith, free, other)
    ]
    | inr (h, taken) ↦ elim (Bool-cases (equal command name)) [
      | inl same ↦ ground (arith, taken, same, (equal_iff command name).0 same)
      | inr other ↦ ground (arith, taken, other)
    ]
  ]

module _ {H L : Type 0} where
  -- The calls for a command.
  abbrev pub run_or_notify :
      Dispatcher H L → Bytes → IrcMessage → Bytes → Bytes → Bytes → List (Call H L)
  run_or_notify d name msg channel user text = elim (lookup name d.commands) [
    | some handler ↦ run handler msg ∷ []
    | none ↦ notify_all d.chat_listeners channel user text
  ]

  route_text-command :
      (d : Dispatcher H L) (channel user name args tags : Bytes) (is_mod is_bc : Bool)
      → Lacks sp name
      → route_text d channel user (command_text name args) tags is_mod is_bc
        ≡ run_or_notify d name
            (record {
              command = name;
              params = channel ∷ [];
              is_moderator = is_mod;
              is_broadcaster = is_bc;
              raw_tags = tags;
              prefix = user;
              trailing = args;
            })
            channel
            user
            (command_text name args)
  unfolding route_text
  route_text-command d channel user name args tags is_mod is_bc h =
      ap
        (λ (s : CommandSplit). elim (lookup s.cmd d.commands) [
          | some handler ↦
              run handler record {
                command = s.cmd;
                params = channel ∷ [];
                is_moderator = is_mod;
                is_broadcaster = is_bc;
                raw_tags = tags;
                prefix = user;
                trailing = s.args;
              }
              ∷ []
          | none ↦ notify_all d.chat_listeners channel user (command_text name args)
        ])
        (split_command_text name args h)

-- A chat message of a user to a channel.
abbrev pub chat_message : Bytes → Bytes → Bytes → Bytes → Bytes → IrcMessage
chat_message tags channel login host text = record {
  command = codes "PRIVMSG";
  params = (b'#' ∷ channel) ∷ [];
  is_moderator = false;
  is_broadcaster = false;
  raw_tags = tags;
  prefix = login ++ b'!' ∷ host;
  trailing = text;
}

chat_message-IsPrintable :
    (tags channel login host text : Bytes)
    → Lacks sp tags
    → Lacks sp channel
    → Lacks sp login
    → Lacks sp host
    → IsPrintable (chat_message tags channel login host text)
unfolding find
chat_message-IsPrintable tags channel login host text t c l h = record {
  tags_lack = t;
  prefix_lacks = Lacks-append sp login (b'!' ∷ host) l (omega arith, h);
  command_word = (Lacks-of_find sp (codes "PRIVMSG") refl, refl, refl);
  command_no_at = refl;
  param_words = (((omega arith, c), refl, refl), tt);
  room = omega arith;
}

module _ {H L : Type 0} where
  -- The same for what the parser makes of the line.
  dispatch-read :
      (d : Dispatcher H L) (tags channel login host name args : Bytes) (r : IrcMessage)
      → Lacks b'!' login
      → Lacks sp name
      → record r { is_moderator = false; is_broadcaster = false }
        ≡ chat_message tags channel login host (command_text name args)
      → dispatch d r
        ≡ run_or_notify d name
            (record {
              command = name;
              params = channel ∷ [];
              is_moderator = r.is_moderator;
              is_broadcaster = r.is_broadcaster;
              raw_tags = tags;
              prefix = login;
              trailing = args;
            })
            channel
            login
            (command_text name args)
  unfolding dispatch normalise_channel
  dispatch-read d tags channel login host name args r bang n same =
      let cmd : r.command ≡ codes "PRIVMSG" = ap (λ (m : IrcMessage). m.command) same in
      let ps : r.params ≡ (b'#' ∷ channel) ∷ [] = ap (λ (m : IrcMessage). m.params) same in
      let pre : r.prefix ≡ login ++ b'!' ∷ host = ap (λ (m : IrcMessage). m.prefix) same in
      let txt : r.trailing ≡ command_text name args = ap (λ (m : IrcMessage). m.trailing) same in
      let tgs : r.raw_tags ≡ tags = ap (λ (m : IrcMessage). m.raw_tags) same in
      let shown : equal r.command (codes "PRIVMSG") ≡ true =
        (equal_iff r.command (codes "PRIVMSG")).1 cmd in
      let here : dispatch d r
          ≡ route_text d channel (extract_user r.prefix) r.trailing r.raw_tags r.is_moderator
              r.is_broadcaster =
        rw (dispatch, shown, ps) refl in
      here
      ∙ rw (pre, txt, tgs, extract_user-login login host bang)
          (route_text-command d channel login name args tags r.is_moderator r.is_broadcaster n)

  -- The bytes of a chat line whose text is `!name args`, parsed and dispatched, run the handler of
  -- `name` and nothing else, or notify every listener if there is none. The handler gets the channel
  -- without '#', the login, the arguments, the tags and the flags of the parser.
  pub dispatch-parse_irc_line :
      (d : Dispatcher H L) (tags channel login host name args : Bytes)
      → Lacks sp tags
      → Lacks sp channel
      → Lacks sp login
      → Lacks b'!' login
      → Lacks sp host
      → Lacks sp name
      → dispatch d (
          parse_irc_line
            (print_irc_line (chat_message tags channel login host (command_text name args))))
        ≡ run_or_notify d name
            (record {
              command = name;
              params = channel ∷ [];
              is_moderator =
                  (parse_irc_line (
                    print_irc_line (
                      chat_message tags channel login host (command_text name args)))).is_moderator;
              is_broadcaster =
                  (parse_irc_line (
                    print_irc_line (
                      chat_message tags channel login host
                        (command_text name args)))).is_broadcaster;
              raw_tags = tags;
              prefix = login;
              trailing = args;
            })
            channel
            login
            (command_text name args)
  dispatch-parse_irc_line d tags channel login host name args t c l bang h n =
      let msg : IrcMessage = chat_message tags channel login host (command_text name args) in
      dispatch-read d tags channel login host name args (parse_irc_line (print_irc_line msg)) bang n
        (parse-print_irc_line msg
          (chat_message-IsPrintable tags channel login host (command_text name args) t c l h))
