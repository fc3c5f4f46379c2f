-- ===== src/Irc/Client/Tests.antt =====
-- Runs of the client on concrete frames, texts and channels.
use twitch_bot.Prelude.{◌≡◌, refl, List, [], ◌∷◌, ◌++◌, arith}
use twitch_bot.Prelude.Bytes.{Bytes, codes, cr, lf}
use twitch_bot.Prelude.Search.{find, Lacks-of_find}
use twitch_bot.Irc.Client.{
  handle, read_chunk, read_tail, read_frame, read_loop, is_continuation, clip_back, utf8_clip_len,
  is_break, last_break, utf8_chunk_by_words, clean_byte, leading_breaks, wrap_from, has_crlf, fits,
  privmsg, reply_frame, reply, privmsg_wrap, reply_wrap, push_channel, join_from, connect_join,
}
use twitch_bot.Irc.Client.Machine.{seen_cr, kept, machine}
use twitch_bot.Irc.Client.Frames.{wire, read_loop-machine}
use twitch_bot.Irc.Client.Join.{JoinPlan, connect_join-JoinPlan}

client : Unit {0}
unfolding find handle read_chunk read_tail read_frame read_loop is_continuation clip_back
    utf8_clip_len is_break last_break utf8_chunk_by_words clean_byte leading_breaks wrap_from
    has_crlf fits privmsg reply_frame reply privmsg_wrap reply_wrap push_channel join_from
    connect_join wire kept
client = tt

-- A line cut in two behind its CR.
abbrev cut_frames : List Bytes
cut_frames =
    (codes "PING :a" ++ cr ∷ []) ∷ (lf ∷ (codes "PI")) ∷ (codes "NG :b" ++ cr ∷ lf ∷ []) ∷ []

read_cut :
    read_loop [] cut_frames ≡ record { lines = codes "PING :a" ∷ codes "PING :b" ∷ []; tail = [] }
unfolding client
read_cut = refl

-- A CR that no LF follows takes the bytes before it away.
read_lone_cr :
    (read_loop [] ((codes "ab" ++ cr ∷ (codes "cd" ++ cr ∷ lf ∷ [])) ∷ [])).lines ≡ codes "cd" ∷ []
unfolding client
read_lone_cr = refl

-- The last word of a long text is sent alone.
wrap_last_word :
    privmsg_wrap (codes "c") (codes "one two" ++ cr ∷ codes "three")
    ≡ privmsg (codes "c") (codes "one two") ∷ privmsg (codes "c") (codes "three") ∷ []
unfolding client
wrap_last_word = refl

read_loop-machine_example :
    read_loop (codes "ab" ++ cr ∷ []) ((lf ∷ codes "c") ∷ [])
    ≡ machine (seen_cr (codes "ab")) (lf ∷ codes "c")
unfolding client
read_loop-machine_example =
    read_loop-machine (seen_cr (codes "ab")) ((lf ∷ codes "c") ∷ [])
      (Lacks-of_find cr (codes "ab") refl)

abbrev two_lines : Bytes
two_lines = codes "a" ++ cr ∷ codes "bc"

connect_join_example :
    JoinPlan (codes "amy" ∷ codes "bob" ∷ []) (connect_join (codes "amy" ∷ codes "bob" ∷ []))
connect_join_example =
    connect_join-JoinPlan (codes "amy" ∷ codes "bob" ∷ []) (omega arith, (omega arith, tt))
