-- ===== src/Irc/Client/Join.antt =====
-- The JOIN lines of `connect`: batches of channels under the limit of an IRC line.
use twitch_bot.Prelude.{
  ◌+◌, ◌≤◌, ◌<◌, ◌≡◌, refl, sym, ap, ◌∙◌, true, false, inl, inr, List, [], ◌∷◌, ◌++◌, append_assoc,
  append-nil, arith, ltb, Bool-cases, length, length-append,
}
use twitch_bot.Prelude.Bytes.{Bytes}
use twitch_bot.Irc.Client.{crlf, irc_max_line, join_start, push_channel, join_from, connect_join}

abbrev pub more_channels : List Bytes → Bytes
more_channels [] = []
more_channels (c ∷ cs) = b',' ∷ b'#' ∷ (c ++ more_channels cs)

-- `JOIN #a,#b,#c`, with CRLF.
abbrev pub join_line : Bytes → List Bytes → Bytes
join_line c cs = (join_start ++ b'#' ∷ c) ++ more_channels cs ++ crlf

-- A line's channels: at least one.
abbrev pub Batch : Type 0
Batch = Bytes × List Bytes

abbrev pub channels_of : List Batch → List Bytes
channels_of [] = []
channels_of (b ∷ bs) = b.0 ∷ (b.1 ++ channels_of bs)

abbrev pub lines_of : List Batch → List Bytes
lines_of [] = []
lines_of (b ∷ bs) = join_line b.0 b.1 ∷ lines_of bs

-- No line is over 512 bytes, CRLF included.
abbrev pub AreShort : List Bytes → Type 0
AreShort [] = Unit {0}
AreShort (l ∷ ls) = (length l ≤ irc_max_line) × AreShort ls

-- Each name fits into a line of its own.
abbrev pub AreChannels : List Bytes → Type 0
AreChannels [] = Unit {0}
AreChannels (c ∷ cs) = (length c ≤ 504) × AreChannels cs

-- What the loop sends from a line under construction: the line with the next channels, and then
-- batches.
record Rest (line : Bytes) (channels : List Bytes) (sent : List Bytes) : Type 0 where
  taken : List Bytes
  batches : List Batch
  all_channels : channels ≡ taken ++ channels_of batches
  lines : sent ≡ (line ++ more_channels taken ++ crlf) ∷ lines_of batches
  short : AreShort sent

join_from_end : (line : Bytes) → 5 < length line → join_from [] line false ≡ (line ++ crlf) ∷ []
unfolding join_from
join_from_end line long = ground arith

join_from_full :
    (ch : Bytes) (channels : List Bytes) (line : Bytes)
    → 508 < length line + length ch
    → join_from (ch ∷ channels) line false
      ≡ (line ++ crlf) ∷ join_from channels (join_start ++ b'#' ∷ ch) false
unfolding join_from push_channel
join_from_full ch channels line full = ground arith

join_from_room :
    (ch : Bytes) (channels : List Bytes) (line : Bytes)
    → length line + length ch ≤ 508
    → join_from (ch ∷ channels) line false ≡ join_from channels (line ++ b',' ∷ b'#' ∷ ch) false
unfolding join_from push_channel
join_from_room ch channels line room = ground (arith, append_assoc line (b',' ∷ []) (b'#' ∷ ch))

length-start : (ch : Bytes) → length (join_start ++ b'#' ∷ ch) ≡ 6 + length ch
length-start ch = ground (arith, length-append join_start (b'#' ∷ ch))

push_lem :
    (ch line : Bytes) (taken : List Bytes)
    → (line ++ b',' ∷ b'#' ∷ ch) ++ more_channels taken ++ crlf
      ≡ line ++ more_channels (ch ∷ taken) ++ crlf
push_lem ch line taken =
    ap (λ l. l ++ crlf) (append_assoc line (b',' ∷ b'#' ∷ ch) (more_channels taken))

join_from-Rest :
    (channels : List Bytes) (line : Bytes)
    → AreChannels channels
    → 5 < length line
    → length line ≤ 510
    → Rest line channels (join_from channels line false)
join_from-Rest [] line w long short_line = record {
  taken = [];
  batches = [];
  all_channels = refl;
  lines = join_from_end line long ∙ ap (λ l. (l ++ crlf) ∷ []) (sym (append-nil line));
  short = rw (join_from_end line long) (omega (arith, length-append line crlf, short_line), tt);
}
join_from-Rest (ch ∷ channels) line w long short_line =
    elim (Bool-cases (ltb 508 (length line + length ch))) [
      | inl full ↦
          let next =
            join_from-Rest channels (join_start ++ b'#' ∷ ch) w.1 (omega (arith, length-start ch))
              (omega (arith, length-start ch, w.0)) in
          let here = join_from_full ch channels line (ground arith) in
          record {
            taken = [];
            batches = (ch, next.taken) ∷ next.batches;
            all_channels = ap (◌∷◌ ch) next.all_channels;
            lines =
                here
                ∙ ap (◌∷◌ (line ++ crlf)) next.lines
                ∙ ap (λ l. (l ++ crlf) ∷ lines_of ((ch, next.taken) ∷ next.batches))
                    (sym (append-nil line));
            short = rw here (omega (arith, length-append line crlf, short_line), next.short);
          }
      | inr room ↦
          let longer : length (line ++ b',' ∷ b'#' ∷ ch) ≡ length line + length ch + 2 =
            omega (arith, length-append line (b',' ∷ b'#' ∷ ch)) in
          let fits_in : length line + length ch ≤ 508 = ground arith in
          let next =
            join_from-Rest channels (line ++ b',' ∷ b'#' ∷ ch) w.1 (omega (arith, longer, long))
              (omega (arith, longer, fits_in)) in
          let here = join_from_room ch channels line fits_in in
          record {
            taken = ch ∷ next.taken;
            batches = next.batches;
            all_channels = ap (◌∷◌ ch) next.all_channels;
            lines =
                here
                ∙ next.lines
                ∙ ap (λ l. l ∷ lines_of next.batches) (push_lem ch line next.taken);
            short = rw here next.short;
          }
    ]

connect_join_none : join_from [] join_start true ≡ []
unfolding join_from
connect_join_none = refl

connect_join_first :
    (ch : Bytes) (channels : List Bytes)
    → length ch ≤ 504
    → join_from (ch ∷ channels) join_start true ≡ join_from channels (join_start ++ b'#' ∷ ch) false
unfolding join_from push_channel
connect_join_first ch channels short = ground arith

-- What `connect` sends for the channels.
pub record JoinPlan (channels : List Bytes) (sent : List Bytes) : Type 0 where
  pub batches : List Batch
  pub all_channels : channels ≡ channels_of batches
  pub lines : sent ≡ lines_of batches
  pub short : AreShort sent

-- `connect` joins every channel, in order, in lines `JOIN #a,#b,...` of at least one channel and at
-- most 512 bytes with CRLF, if no name is over 504 bytes.
pub connect_join-JoinPlan :
    (channels : List Bytes) → AreChannels channels → JoinPlan channels (connect_join channels)
unfolding connect_join
connect_join-JoinPlan [] w = record {
  batches = [];
  all_channels = refl;
  lines = connect_join_none;
  short = rw connect_join_none tt;
}
connect_join-JoinPlan (ch ∷ channels) w =
    let first : join_from (ch ∷ channels) join_start true
        ≡ join_from channels (join_start ++ b'#' ∷ ch) false =
      connect_join_first ch channels w.0 in
    let next =
      join_from-Rest channels (join_start ++ b'#' ∷ ch) w.1 (omega (arith, length-start ch))
        (omega (arith, length-start ch, w.0)) in
    record {
      batches = (ch, next.taken) ∷ next.batches;
      all_channels = ap (◌∷◌ ch) next.all_channels;
      lines = first ∙ next.lines;
      short = rw first next.short;
    }
