-- ===== src/Irc/Client.antt =====
-- `IrcClient` of lib/twitch_core/src/irc_client.cpp and lib/twitch_core/include/tb/twitch/irc_client.hpp:
-- the lines it reads from the frames of the WebSocket and the frames it writes. A frame is a byte
-- string; an operation that sends gives the list of the frames it hands to `send_buffers`.
pub mod Machine
pub mod Frames
pub mod Chunks
pub mod Wrap
pub mod Join
pub mod Gate
pub mod Connect
mod Tests
use twitch_bot.Prelude.{
  ℕ, zero, suc, ◌+◌, ◌-◌, ◌/◌, ◌%◌, min, Bool, true, false, ◌&&◌, ◌||◌, not, none, some, Option,
  List, [], ◌∷◌, ◌++◌, map, ltb, leb, ◌==◌, if◌then◌else◌, length, take, drop, get_or,
}
use twitch_bot.Prelude.Bytes.{Bytes, codes, cr, lf, sp, is_empty, starts_with_byte}
use twitch_bot.Prelude.Search.{find}

-- What a read leaves: the lines given to the handler, and `line_tail_`.
pub record Reading : Type 0 where
  pub lines : List Bytes
  pub tail : Bytes

-- `if (!line.empty()) handler(line);`
unfoldable pub handle : Bytes → Reading → Reading
handle line r = if is_empty line then r else record r { lines = line ∷ r.lines }

-- The loop over the current buffer, from `begin`. Each round drops a byte at least.
unfoldable pub read_chunk : ℕ → Bytes → Reading
read_chunk zero s = record { lines = []; tail = s }
read_chunk (suc f) s = elim (find cr s) [
  | none ↦ record { lines = []; tail = s }
  | some r ↦
      let after_line = read_chunk f (drop (r + 2) s) in
      let after_cr = read_chunk f (drop (r + 1) s) in
      if ltb (r + 1) (length s) && (get_or s (r + 1) 0 == lf)
      then handle (take r s) after_line
      else if r + 1 == length s
      then record { lines = []; tail = s }
      else after_cr
]

-- The loop over `line_tail_`, from `begin`.
unfoldable pub read_tail : ℕ → Bytes → Reading
read_tail zero s = record { lines = []; tail = s }
read_tail (suc f) s = elim (find cr s) [
  | none ↦ record { lines = []; tail = s }
  | some r ↦
      let after_line = read_tail f (drop (r + 2) s) in
      let after_cr = read_tail f (drop (r + 1) s) in
      if leb (length s) (r + 1)
      then record { lines = []; tail = s }
      else if get_or s (r + 1) 0 == lf
      then handle (take r s) after_line
      else after_cr
]

-- One round of `read_loop`: a frame comes in while `line_tail_` is `tail`.
unfoldable pub read_frame : Bytes → Bytes → Reading
read_frame tail chunk =
    if is_empty chunk
    then record { lines = []; tail = tail }
    else if is_empty tail
    then read_chunk (length chunk) chunk
    else read_tail (length (tail ++ chunk)) (tail ++ chunk)

-- `read_loop` over the frames that come in.
unfoldable pub read_loop : Bytes → List Bytes → Reading
read_loop tail [] = record { lines = []; tail = tail }
read_loop tail (chunk ∷ frames) =
    let r = read_frame tail chunk in
    let more = read_loop r.tail frames in record more { lines = r.lines ++ more.lines }

abbrev pub max_chat_bytes : ℕ
max_chat_bytes = 500

-- `(c & 0xC0) == 0x80`
unfoldable pub is_continuation : ℕ → Bool
is_continuation c = (c / 64) % 4 == 2

-- `while (i > 0 && continuation(s[i - 1])) --i;`
unfoldable pub clip_back : Bytes → ℕ → ℕ
clip_back s zero = 0
clip_back s (suc i) =
    let back = clip_back s i in if is_continuation (get_or s i 0) then back else suc i

unfoldable pub utf8_clip_len : Bytes → ℕ → ℕ
utf8_clip_len s max_bytes = if leb (length s) max_bytes then length s else clip_back s max_bytes

-- A space or a line break.
unfoldable pub is_break : ℕ → Bool
is_break c = (c == sp) || (c == cr) || (c == lf)

-- The index of the last break among the `n` bytes behind `start`.
unfoldable pub last_break : Bytes → ℕ → ℕ → Option ℕ
last_break s start zero = none
last_break s start (suc n) =
    let before = last_break s start n in
    if is_break (get_or s (start + n) 0) then some (start + n) else before

unfoldable pub utf8_chunk_by_words : Bytes → ℕ → ℕ → ℕ
utf8_chunk_by_words s start max_bytes =
    if leb (length s) start
    then 0
    else let remaining : ℕ = length s - start in
      let hard : ℕ = utf8_clip_len (drop start s) (min max_bytes remaining) in
      if hard == 0
      then 0
      else let end_at : ℕ = elim (last_break s start hard) [ none ↦ start + hard | some i ↦ i ] in
        (if end_at == start then start + hard else end_at) - start

-- `(c == '\r' || c == '\n') ? ' ' : c`
unfoldable pub clean_byte : ℕ → ℕ
clean_byte c = if (c == cr) || (c == lf) then sp else c

-- How many breaks the string starts with.
unfoldable pub leading_breaks : Bytes → ℕ
leading_breaks [] = 0
leading_breaks (x ∷ xs) = if is_break x then suc (leading_breaks xs) else 0

-- The payloads of the wrapping loop from `pos`. Each round moves `pos` forward.
unfoldable pub wrap_from : ℕ → Bytes → ℕ → List Bytes
wrap_from zero text pos = []
wrap_from (suc f) text pos =
    let len : ℕ = utf8_chunk_by_words text pos max_chat_bytes in
    let after : ℕ = pos + len in
    let rest = wrap_from f text (after + leading_breaks (drop after text)) in
    if leb (length text) pos
    then []
    else if len == 0
    then []
    else map clean_byte (take len (drop pos text)) ∷ rest

-- `has_crlf`
unfoldable pub has_crlf : Bytes → Bool
has_crlf [] = false
has_crlf (x ∷ xs) = (x == cr) || (x == lf) || has_crlf xs

-- Whether the text goes out as it is.
unfoldable pub fits : Bytes → Bool
fits text = leb (length text) max_chat_bytes && not (has_crlf text)

abbrev pub crlf : Bytes
crlf = cr ∷ lf ∷ []

unfoldable pub send_line : Bytes → Bytes
send_line message = message ++ crlf

unfoldable pub join : Bytes → Bytes
join channel = codes "JOIN #" ++ channel ++ crlf

unfoldable pub part : Bytes → Bytes
part channel = codes "PART #" ++ channel ++ crlf

unfoldable pub privmsg : Bytes → Bytes → Bytes
privmsg channel text = codes "PRIVMSG #" ++ channel ++ codes " :" ++ text ++ crlf

-- The frame of `reply` for a parent that is not empty.
unfoldable pub reply_frame : Bytes → Bytes → Bytes → Bytes
reply_frame channel parent text =
    codes "@reply-parent-msg-id="
    ++ parent
    ++ codes " PRIVMSG #"
    ++ channel
    ++ codes " :"
    ++ text
    ++ crlf

unfoldable pub reply : Bytes → Bytes → Bytes → Bytes
reply channel parent text =
    if is_empty parent then privmsg channel text else reply_frame channel parent text

unfoldable pub privmsg_wrap : Bytes → Bytes → List Bytes
privmsg_wrap channel text =
    if fits text
    then privmsg channel text ∷ []
    else map (privmsg channel) (wrap_from (length text) text 0)

unfoldable pub reply_wrap : Bytes → Bytes → Bytes → List Bytes
reply_wrap channel parent text =
    if is_empty parent
    then privmsg_wrap channel text
    else if fits text
    then reply channel parent text ∷ []
    else map (reply_frame channel parent) (wrap_from (length text) text 0)

abbrev pub irc_max_line : ℕ
irc_max_line = 512

abbrev pub join_start : Bytes
join_start = codes "JOIN "

-- `if (!first) line.push_back(','); line.push_back('#'); line.append(ch);`
unfoldable pub push_channel : Bytes → Bool → Bytes → Bytes
push_channel line first ch = line ++ (if first then [] else b',' ∷ []) ++ b'#' ∷ ch

-- The frames of the JOIN part of `connect`, from the line under construction.
unfoldable pub join_from : List Bytes → Bytes → Bool → List Bytes
join_from [] line first = if ltb 5 (length line) then (line ++ crlf) ∷ [] else []
join_from (ch ∷ channels) line first =
    let needed : ℕ = (if first then 0 else 1) + 1 + length ch in
    let flush = join_from channels (push_channel join_start true ch) false in
    let keep = join_from channels (push_channel line first ch) false in
    if ltb irc_max_line (length line + needed + 2) then (line ++ crlf) ∷ flush else keep

unfoldable pub connect_join : List Bytes → List Bytes
connect_join channels = join_from channels join_start true
