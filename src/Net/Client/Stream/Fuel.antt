-- ===== src/Net/Client/Stream/Fuel.antt =====
-- The fuel of `process_buffer` is enough: more of it changes nothing.
use twitch_bot.Prelude.{
  ℕ, zero, suc, ◌≤◌, ◌≡◌, refl, inl, inr, false, [], ◌∷◌, length, arith, Option-cases,
}
use twitch_bot.Prelude.Bytes.{Bytes}
use twitch_bot.Net.Chunked.{get_next_chunk}
use twitch_bot.Net.Chunked.Progress.{get_next_chunk-shorter}
use twitch_bot.Net.Client.Stream.{process_from, process_buffer}

process_from-same :
    (f g : ℕ) (p : Bytes) (state : ℕ)
    → length p ≤ f
    → length p ≤ g
    → process_from f p state ≡ process_from g p state
unfolding process_from
process_from-same zero zero p state hf hg = refl
process_from-same zero (suc g) [] state hf hg = refl
process_from-same zero (suc g) (x ∷ p) state hf hg = absurd (omega (arith, hf))
process_from-same (suc f) zero [] state hf hg = refl
process_from-same (suc f) zero (x ∷ p) state hf hg = absurd (omega (arith, hg))
process_from-same (suc f) (suc g) [] state hf hg = refl
process_from-same (suc f) (suc g) (x ∷ p) state hf hg =
    let n = get_next_chunk (x ∷ p) state false in
    elim (Option-cases n.chunk) [
      | inl nothing ↦ rw (process_from, nothing) refl
      | inr (sv, chunk) ↦
          let shorter = get_next_chunk-shorter (x ∷ p) state sv chunk in
          let same =
            process_from-same f g n.left n.state (omega (arith, hf, shorter))
              (omega (arith, hg, shorter)) in
          ground (arith, chunk, same)
    ]

-- With any fuel from the length of the buffer on the loop gives what process_buffer gives.
pub process_from-enough :
    (f : ℕ) (p : Bytes) (state : ℕ) → length p ≤ f → process_from f p state ≡ process_buffer p state
unfolding process_buffer
process_from-enough f p state h = process_from-same f (length p) p state h (omega arith)
