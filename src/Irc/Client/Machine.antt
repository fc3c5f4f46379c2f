-- ===== src/Irc/Client/Machine.antt =====
-- A machine that splits a stream of bytes into lines, one byte at a time.
use twitch_bot.Prelude.{
  ℕ, ◌≡◌, ◌≢◌, refl, sym, ap, ◌∙◌, ◌&&◌, not, inl, inr, List, [], ◌∷◌, ◌++◌, append_assoc,
  append-nil, arith, ◌==◌, ==_iff, if◌then◌else◌, Bool-cases,
}
use twitch_bot.Prelude.Bytes.{Bytes, cr, lf, is_empty}
use twitch_bot.Prelude.Search.{Lacks}
use twitch_bot.Irc.Client.{Reading, handle}

-- The bytes of the line so far, without and with a CR behind them.
pub data Pending : Type 0 where
  open_line : Bytes → Pending
  seen_cr : Bytes → Pending

unfoldable pub next : Pending → ℕ → Pending
next (open_line acc) x = if x == cr then seen_cr acc else open_line (acc ++ x ∷ [])
next (seen_cr acc) x =
    if x == lf then open_line [] else if x == cr then seen_cr [] else open_line (x ∷ [])

unfoldable pub emitted : Pending → ℕ → List Bytes
emitted (open_line acc) x = []
emitted (seen_cr acc) x = if (x == lf) && not (is_empty acc) then acc ∷ [] else []

unfoldable pub kept : Pending → Bytes
kept (open_line acc) = acc
kept (seen_cr acc) = acc ++ cr ∷ []

unfoldable pub machine : Pending → Bytes → Reading
unfolding next emitted kept
machine p [] = record { lines = []; tail = kept p }
machine p (x ∷ xs) =
    let more = machine (next p x) xs in record more { lines = emitted p x ++ more.lines }

unfoldable pub ends : Pending → Bytes → Pending
unfolding next
ends p [] = p
ends p (x ∷ xs) = ends (next p x) xs

-- A machine on a line takes the bytes in until a CR.
pub machine_open :
    (acc left rest : Bytes)
    → Lacks cr left
    → machine (open_line acc) (left ++ rest) ≡ machine (open_line (acc ++ left)) rest
unfolding machine
machine_open acc [] rest h = ap (λ a. machine (open_line a) rest) (sym (append-nil acc))
machine_open acc (x ∷ left) rest h =
    ground (arith, machine_open (acc ++ x ∷ []) left rest h.1, append_assoc acc (x ∷ []) left, h.0)

pub machine-cr :
    (left rest : Bytes)
    → Lacks cr left
    → machine (open_line []) (left ++ cr ∷ rest) ≡ machine (seen_cr left) rest
unfolding machine
machine-cr left rest h = machine_open [] left (cr ∷ rest) h

pub machine_line :
    (left rest : Bytes)
    → machine (seen_cr left) (lf ∷ rest) ≡ handle left (machine (open_line []) rest)
unfolding machine handle
machine_line [] rest = refl
machine_line (x ∷ left) rest = refl

-- A CR that no LF follows leaves what follows as it is.
machine_lone :
    (left : Bytes) (y : ℕ) (ys : Bytes)
    → y ≢ lf
    → machine (seen_cr left) (y ∷ ys) ≡ machine (open_line []) (y ∷ ys)
unfolding machine
machine_lone left y ys ne = ground (arith, ne)

-- A step of the loops at a CR, with what they do behind it.
abbrev pub at_cr : (Bytes → Reading) → Bytes → Bytes → Reading
at_cr more left [] = record { lines = []; tail = left ++ cr ∷ [] }
at_cr more left (y ∷ ys) = if y == lf then handle left (more ys) else more (y ∷ ys)

pub machine-at_cr :
    (left right : Bytes)
    → Lacks cr left
    → machine (open_line []) (left ++ cr ∷ right) ≡ at_cr (machine (open_line [])) left right
unfolding machine
machine-at_cr left [] h = machine-cr left [] h
machine-at_cr left (y ∷ ys) h = elim (Bool-cases (y == lf)) [
  | inl hit ↦
      rw (hit, if◌then◌else◌)
        (machine-cr left (y ∷ ys) h
          ∙ ap (λ q. machine (seen_cr left) (q ∷ ys)) {x = y} {y = lf} ((==_iff y lf).0 hit)
          ∙ machine_line left ys)
  | inr miss ↦
      rw (miss, if◌then◌else◌) (machine-cr left (y ∷ ys) h ∙ machine_lone left y ys (ground arith))
]
