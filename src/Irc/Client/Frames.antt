-- ===== src/Irc/Client/Frames.antt =====
-- `read_loop` against a machine that takes one byte at a time and does not know of frames.
use twitch_bot.Prelude.{
  ℕ, zero, suc, ◌+◌, ◌≤◌, ◌<◌, ◌≡◌, refl, sym, ap, ◌∙◌, true, inl, inr, none, List, [], ◌∷◌, ◌++◌,
  append_assoc, append-nil, arith, ◌==◌, if◌then◌else◌, Bool-cases, Option-cases, length,
  length-append, flatten, take-append_left, drop, drop-append_cons, get_or,
}
use twitch_bot.Prelude.Bytes.{Bytes, cr, lf, is_empty}
use twitch_bot.Prelude.Search.{
  find, find-append, find-Split, Lacks, Lacks-of_find, Lacks-append, length-Split,
}
use twitch_bot.Irc.Client.{Reading, handle, read_chunk, read_tail, read_frame, read_loop}
use twitch_bot.Irc.Client.Machine.{
  Pending, open_line, seen_cr, next, emitted, kept, machine, ends, machine_open, machine-cr,
  machine_line, at_cr, machine-at_cr,
}

get_or_behind :
    (left right : Bytes) (c : ℕ) → get_or (left ++ c ∷ right) (length left + 1) 0 ≡ get_or right 0 0
get_or_behind left right c =
    ap (λ i. get_or (left ++ c ∷ right) i 0) {x = length left + 1} {y = suc (length left)}
      (omega arith)
    ∙ go left
  where
    go : (l : Bytes) → get_or (l ++ c ∷ right) (suc (length l)) 0 ≡ get_or right 0 0
    go [] = refl
    go (x ∷ l) = go l

drop_behind : (left ys : Bytes) (c y : ℕ) → drop (length left + 2) (left ++ c ∷ y ∷ ys) ≡ ys
drop_behind left ys c y =
    ap (λ n. drop n (left ++ c ∷ y ∷ ys)) {x = length left + 2} {y = suc (suc (length left))}
      (omega arith)
    ∙ go left
  where
    go : (l : Bytes) → drop (suc (suc (length l))) (l ++ c ∷ y ∷ ys) ≡ ys
    go [] = refl
    go (x ∷ l) = go l

read_chunk-at_cr :
    (f : ℕ) (left right : Bytes)
    → Lacks cr left
    → read_chunk (suc f) (left ++ cr ∷ right) ≡ at_cr (read_chunk f) left right
unfolding read_chunk
read_chunk-at_cr f left [] h =
    ground (arith, find-append cr left [] h, length-append left (cr ∷ []), get_or_behind left [] cr)
read_chunk-at_cr f left (y ∷ ys) h = ground (
  arith,
  find-append cr left (y ∷ ys) h,
  length-append left (cr ∷ y ∷ ys),
  get_or_behind left (y ∷ ys) cr,
  take-append_left left (cr ∷ y ∷ ys),
  drop-append_cons left cr (y ∷ ys),
  drop_behind left ys cr y,
)

read_tail-at_cr :
    (f : ℕ) (left right : Bytes)
    → Lacks cr left
    → read_tail (suc f) (left ++ cr ∷ right) ≡ at_cr (read_tail f) left right
unfolding read_tail
read_tail-at_cr f left [] h =
    ground (arith, find-append cr left [] h, length-append left (cr ∷ []), get_or_behind left [] cr)
read_tail-at_cr f left (y ∷ ys) h = ground (
  arith,
  find-append cr left (y ∷ ys) h,
  length-append left (cr ∷ y ∷ ys),
  get_or_behind left (y ∷ ys) cr,
  take-append_left left (cr ∷ y ∷ ys),
  drop-append_cons left cr (y ∷ ys),
  drop_behind left ys cr y,
)

at_cr_same :
    (f : ℕ) (more more' : Bytes → Reading)
    → ((t : Bytes) → length t ≤ f → more t ≡ more' t)
    → (left right : Bytes) → length right ≤ f
    → at_cr more left right ≡ at_cr more' left right
at_cr_same f more more' agree left [] shorter = refl
at_cr_same f more more' agree left (y ∷ ys) shorter =
    rw (agree ys (omega (arith, shorter)), agree (y ∷ ys) shorter)

module _ (loop : ℕ → Bytes → Reading)
    (loop_zero : (s : Bytes) → loop zero s ≡ record { lines = []; tail = s })
    (loop_none : (f : ℕ) (s : Bytes)
      → find cr s ≡ none
      → loop (suc f) s ≡ record { lines = []; tail = s })
    (loop-at_cr : (f : ℕ) (left right : Bytes)
      → Lacks cr left
      → loop (suc f) (left ++ cr ∷ right) ≡ at_cr (loop f) left right) where
  loop-machine : (f : ℕ) (s : Bytes) → length s ≤ f → loop f s ≡ machine (open_line []) s
  unfolding machine
  loop-machine zero [] h = loop_zero []
  loop-machine zero (x ∷ xs) h = absurd (omega (arith, h))
  loop-machine (suc f) s h = elim (Option-cases (find cr s)) [
    | inl miss ↦
        loop_none f s miss
        ∙ sym (
            ap (machine (open_line [])) (sym (append-nil s))
            ∙ machine_open [] s [] (Lacks-of_find cr s miss))
    | inr (r, hit) ↦
        let p = find-Split cr s r hit in
        ap (loop (suc f)) p.whole
        ∙ loop-at_cr f p.left p.right p.lacks
        ∙ at_cr_same f (loop f) (machine (open_line [])) (loop-machine f) p.left p.right
            (omega (arith, length-Split p, h))
        ∙ sym (machine-at_cr p.left p.right p.lacks)
        ∙ sym (ap (machine (open_line [])) p.whole)
  ]

read_chunk-machine : (f : ℕ) (s : Bytes) → length s ≤ f → read_chunk f s ≡ machine (open_line []) s
unfolding read_chunk
read_chunk-machine =
    loop-machine read_chunk (λ s. refl) (λ f s miss. rw (read_chunk, miss)) read_chunk-at_cr

read_tail-machine : (f : ℕ) (s : Bytes) → length s ≤ f → read_tail f s ≡ machine (open_line []) s
unfolding read_tail
read_tail-machine =
    loop-machine read_tail (λ s. refl) (λ f s miss. rw (read_tail, miss)) read_tail-at_cr

-- The line so far has no CR.
abbrev pub IsPending : Pending → Type 0
IsPending (open_line acc) = Lacks cr acc
IsPending (seen_cr acc) = Lacks cr acc

machine-kept :
    (p : Pending) (s : Bytes) → IsPending p → machine (open_line []) (kept p ++ s) ≡ machine p s
unfolding kept machine
machine-kept (open_line acc) s h = machine_open [] acc s h
machine-kept (seen_cr acc) s h =
    ap (machine (open_line [])) (append_assoc acc (cr ∷ []) s) ∙ machine_open [] acc (cr ∷ s) h

empty_of : (s : Bytes) → is_empty s ≡ true → s ≡ []
empty_of [] h = refl
empty_of (x ∷ xs) h = ground arith

-- A round of `read_loop` is the machine on the frame's bytes.
read_frame-machine :
    (p : Pending) (chunk : Bytes) → IsPending p → read_frame (kept p) chunk ≡ machine p chunk
unfolding read_frame machine
read_frame-machine p [] h = refl
read_frame-machine p (x ∷ xs) h = elim (Bool-cases (is_empty (kept p))) [
  | inl none_kept ↦
      rw (none_kept, if◌then◌else◌)
        (read_chunk-machine (length (x ∷ xs)) (x ∷ xs) (omega arith)
          ∙ ap (λ t. machine (open_line []) (t ++ x ∷ xs)) {x = []} {y = kept p}
              (sym (empty_of (kept p) none_kept))
          ∙ machine-kept p (x ∷ xs) h)
  | inr some_kept ↦
      rw (some_kept, if◌then◌else◌)
        (read_tail-machine (length (kept p ++ x ∷ xs)) (kept p ++ x ∷ xs) (omega arith)
          ∙ machine-kept p (x ∷ xs) h)
]

next-IsPending : (p : Pending) (x : ℕ) → IsPending p → IsPending (next p x)
unfolding next
next-IsPending (open_line acc) x h = elim (Bool-cases (x == cr)) [
  | inl hit ↦ rw (hit, if◌then◌else◌) h
  | inr miss ↦ rw (miss, if◌then◌else◌) (Lacks-append cr acc (x ∷ []) h (ground arith, tt))
]
next-IsPending (seen_cr acc) x h = elim (Bool-cases (x == lf)) [
  | inl hit ↦ rw (hit, if◌then◌else◌) tt
  | inr miss ↦ elim (Bool-cases (x == cr)) [
    | inl again ↦ rw (miss, again, if◌then◌else◌) tt
    | inr no_cr ↦ rw (miss, no_cr, if◌then◌else◌) (ground arith, tt)
  ]
]

ends-IsPending : (p : Pending) (s : Bytes) → IsPending p → IsPending (ends p s)
unfolding ends
ends-IsPending p [] h = h
ends-IsPending p (x ∷ xs) h = ends-IsPending (next p x) xs (next-IsPending p x h)

machine-tail : (p : Pending) (s : Bytes) → (machine p s).tail ≡ kept (ends p s)
unfolding machine ends
machine-tail p [] = refl
machine-tail p (x ∷ xs) = machine-tail (next p x) xs

machine-append :
    (p : Pending) (a b : Bytes)
    → machine p (a ++ b) ≡ record (machine (ends p a) b) {
      lines = (machine p a).lines ++ (machine (ends p a) b).lines;
    }
unfolding machine ends
machine-append p [] b = refl
machine-append p (x ∷ a) b = ground (
  arith,
  machine-append (next p x) a b,
  append_assoc (emitted p x) (machine (next p x) a).lines (machine (ends (next p x) a) b).lines,
)

-- From a line cut short, `read_loop` does to any frames what the machine does to their bytes, one
-- by one: the same lines go to the handler and `line_tail_` is what the machine keeps.
pub read_loop-machine :
    (p : Pending) (frames : List Bytes)
    → IsPending p
    → read_loop (kept p) frames ≡ machine p (flatten frames)
unfolding read_loop machine
read_loop-machine p [] h = refl
read_loop-machine p (chunk ∷ frames) h =
    let here = read_frame-machine p chunk h in
    let more = read_loop-machine (ends p chunk) frames (ends-IsPending p chunk h) in
    ground (arith, here, more, machine-tail p chunk, machine-append p chunk (flatten frames))

-- Lines as a server sends them.
unfoldable pub wire : List Bytes → Bytes
wire [] = []
wire (l ∷ ls) = l ++ cr ∷ lf ∷ wire ls

-- No line is empty or has a CR.
abbrev pub AreLines : List Bytes → Type 0
AreLines [] = Unit {0}
AreLines (l ∷ ls) = (0 < length l) × (Lacks cr l × AreLines ls)

pub handle_line :
    (l : Bytes) (r : Reading) → 0 < length l → handle l r ≡ record r { lines = l ∷ r.lines }
unfolding handle
handle_line [] r h = absurd (omega (arith, h))
handle_line (x ∷ xs) r h = refl

pub machine-wire :
    (ls : List Bytes)
    → AreLines ls
    → machine (open_line []) (wire ls) ≡ record { lines = ls; tail = [] }
unfolding wire machine
machine-wire [] w = refl
machine-wire (l ∷ ls) w =
    machine-cr l (lf ∷ wire ls) w.1.0
    ∙ machine_line l (wire ls)
    ∙ handle_line l (machine (open_line []) (wire ls)) w.0
    ∙ ap (λ (r : Reading). record r { lines = l ∷ r.lines }) (machine-wire ls w.1.1)

-- However a server's lines are cut into frames, the handler gets these lines, in order and whole,
-- and nothing is left in `line_tail_`. The lines are not empty and have no CR.
pub read_loop-wire :
    (ls frames : List Bytes)
    → flatten frames ≡ wire ls
    → AreLines ls
    → read_loop [] frames ≡ record { lines = ls; tail = [] }
unfolding kept
read_loop-wire ls frames cut w =
    read_loop-machine (open_line []) frames tt ∙ ap (machine (open_line [])) cut ∙ machine-wire ls w
