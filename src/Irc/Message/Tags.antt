-- ===== src/Irc/Message/Tags.antt =====
-- `get_tag` reads the tags block as a dictionary.
use twitch_bot.Prelude.{
  ℕ, zero, suc, ◌+◌, ◌≤◌, ◌<◌, ◌≡◌, refl, sym, ap, ◌∙◌, true, false, ◌&&◌, inl, inr, List, [], ◌∷◌,
  ◌++◌, arith, if◌then◌else◌, Bool-cases, length, length-append, drop, take-append_left,
  drop-append_cons, append_assoc,
}
use twitch_bot.Prelude.Bytes.{Bytes, equal, equal_iff, equal_refl, has_prefix, starts_with_byte}
use twitch_bot.Prelude.Search.{find-append, find-Lacks, Lacks, Lacks-append}
use twitch_bot.Irc.Message.{IrcMessage, get_tag, get_tag_from, next_tag, tag_value}

pub record Tag : Type 0 where
  pub key : Bytes
  pub value : Bytes

-- `k1=v1;k2=v2;...`
unfoldable pub print_tags : List Tag → Bytes
print_tags [] = []
print_tags (t ∷ []) = t.key ++ b'=' ∷ t.value
print_tags (t ∷ u ∷ ts) = t.key ++ b'=' ∷ (t.value ++ b';' ∷ print_tags (u ∷ ts))

-- The value of the first tag with that key; empty if there is none.
unfoldable pub value_of : Bytes → List Tag → Bytes
value_of key [] = []
value_of key (t ∷ ts) = if equal t.key key then t.value else value_of key ts

pub record IsTag (t : Tag) : Type 0 where
  pub key_semi : Lacks b';' t.key
  pub key_eq : Lacks b'=' t.key
  pub value_semi : Lacks b';' t.value

abbrev pub AllTags : List Tag → Type 0
AllTags [] = Unit {0}
AllTags (t ∷ ts) = IsTag t × AllTags ts

-- The match of `key=` is the comparison of the whole key.
match-equal :
    (k key rest : Bytes)
    → Lacks b'=' k
    → Lacks b'=' key
    → (has_prefix key (k ++ b'=' ∷ rest)
        && starts_with_byte b'=' (drop (length key) (k ++ b'=' ∷ rest)))
      ≡ equal k key
unfolding has_prefix equal
match-equal [] [] rest h h' = refl
match-equal [] (y ∷ ys) rest h h' = ground (arith, h'.0)
match-equal (x ∷ k) [] rest h h' = ground (arith, h.0)
match-equal (x ∷ k) (y ∷ ys) rest h h' = ground (arith, match-equal k ys rest h.1 h'.1)

tag_value-semi : (v rest : Bytes) → Lacks b';' v → tag_value (v ++ b';' ∷ rest) ≡ v
tag_value-semi v rest h =
    rw (tag_value, find-append b';' v rest h) (take-append_left v (b';' ∷ rest))

tag_value_last : (v : Bytes) → Lacks b';' v → tag_value v ≡ v
tag_value_last v h = rw (tag_value, find-Lacks b';' v h)

next_tag-semi :
    (k v rest : Bytes)
    → Lacks b';' k
    → Lacks b';' v
    → next_tag (k ++ b'=' ∷ (v ++ b';' ∷ rest)) ≡ rest
next_tag-semi k v rest hk hv =
    let pair : Bytes = k ++ b'=' ∷ v in
    let whole : k ++ b'=' ∷ (v ++ b';' ∷ rest) ≡ pair ++ b';' ∷ rest =
      sym (append_assoc k (b'=' ∷ v) (b';' ∷ rest)) in
    let lacks : Lacks b';' pair = Lacks-append b';' k (b'=' ∷ v) hk (omega arith, hv) in
    let there : next_tag (pair ++ b';' ∷ rest) ≡ rest =
      rw (next_tag, find-append b';' pair rest lacks) (drop-append_cons pair b';' rest) in
    ap next_tag {x = k ++ b'=' ∷ (v ++ b';' ∷ rest)} {y = pair ++ b';' ∷ rest} whole ∙ there

next_tag_last : (k v : Bytes) → Lacks b';' k → Lacks b';' v → next_tag (k ++ b'=' ∷ v) ≡ []
next_tag_last k v hk hv = rw (
  next_tag,
  find-Lacks b';' (k ++ b'=' ∷ v) (Lacks-append b';' k (b'=' ∷ v) hk (omega arith, hv)),
)

-- One round, on a cursor that is not at the end.
get_tag_from_round :
    (f : ℕ) (key s : Bytes)
    → 0 < length s
    → get_tag_from (suc f) key s ≡ (
        if has_prefix key s && starts_with_byte b'=' (drop (length key) s)
        then tag_value (drop (length key + 1) s)
        else get_tag_from f key (next_tag s))
unfolding get_tag_from
get_tag_from_round f key [] h = absurd (omega (arith, h))
get_tag_from_round f key (x ∷ xs) h = refl

get_tag_from_hit :
    (f : ℕ) (key k rest : Bytes)
    → Lacks b'=' key
    → equal k key ≡ true
    → get_tag_from (suc f) key (k ++ b'=' ∷ rest) ≡ tag_value rest
get_tag_from_hit f key k rest h same =
    let here : get_tag_from (suc f) key (key ++ b'=' ∷ rest) ≡ tag_value rest =
      rw
        (
          get_tag_from_round f key (key ++ b'=' ∷ rest)
              (ground (arith, length-append key (b'=' ∷ rest))),
          match-equal key key rest h h,
          equal_refl key,
          if◌then◌else◌,
        )
        (ap tag_value {x = drop (length key + 1) (key ++ b'=' ∷ rest)} {y = rest}
          (drop-append_cons key b'=' rest)) in
    ap (λ q. get_tag_from (suc f) key (q ++ b'=' ∷ rest)) {x = k} {y = key}
      ((equal_iff k key).0 same)
    ∙ here

get_tag_from_miss :
    (f : ℕ) (key k rest : Bytes)
    → Lacks b'=' k
    → Lacks b'=' key
    → equal k key ≡ false
    → get_tag_from (suc f) key (k ++ b'=' ∷ rest) ≡ get_tag_from f key (next_tag (k ++ b'=' ∷ rest))
get_tag_from_miss f key k rest h h' ne = rw (
  get_tag_from_round f key (k ++ b'=' ∷ rest) (ground (arith, length-append k (b'=' ∷ rest))),
  match-equal k key rest h h',
  ne,
  if◌then◌else◌,
)

get_tag_from_end : (f : ℕ) (key : Bytes) → get_tag_from f key [] ≡ []
unfolding get_tag_from
get_tag_from_end zero key = refl
get_tag_from_end (suc f) key = refl

get_tag_from-value_of :
    (f : ℕ) (key : Bytes) (ts : List Tag)
    → Lacks b'=' key
    → AllTags ts
    → length (print_tags ts) ≤ f
    → get_tag_from f key (print_tags ts) ≡ value_of key ts
unfolding print_tags value_of
get_tag_from-value_of f key [] h w fuel = get_tag_from_end f key
get_tag_from-value_of zero key (t ∷ []) h w fuel =
    ground (arith, length-append t.key (b'=' ∷ t.value))
get_tag_from-value_of zero key (t ∷ u ∷ ts) h w fuel =
    ground (arith, length-append t.key (b'=' ∷ (t.value ++ b';' ∷ print_tags (u ∷ ts))))
get_tag_from-value_of (suc f) key (t ∷ []) h w fuel = elim (Bool-cases (equal t.key key)) [
  | inl hit ↦
      rw (hit, if◌then◌else◌)
        (get_tag_from_hit f key t.key t.value h hit ∙ tag_value_last t.value w.0.value_semi)
  | inr miss ↦
      rw (miss, if◌then◌else◌)
        (get_tag_from_miss f key t.key t.value w.0.key_eq h miss
          ∙ ap (get_tag_from f key) (next_tag_last t.key t.value w.0.key_semi w.0.value_semi)
          ∙ get_tag_from_end f key)
]
get_tag_from-value_of (suc f) key (t ∷ u ∷ ts) h w fuel =
    let more : Bytes = print_tags (u ∷ ts) in
    let rest : Bytes = t.value ++ b';' ∷ more in
    let shorter : length more ≤ f =
      ground (arith, length-append t.key (b'=' ∷ rest), length-append t.value (b';' ∷ more)) in
    elim (Bool-cases (equal t.key key)) [
      | inl hit ↦
          rw (hit, if◌then◌else◌)
            (get_tag_from_hit f key t.key rest h hit ∙ tag_value-semi t.value more w.0.value_semi)
      | inr miss ↦
          rw (miss, if◌then◌else◌)
            (get_tag_from_miss f key t.key rest w.0.key_eq h miss
              ∙ ap (get_tag_from f key)
                  (next_tag-semi t.key t.value more w.0.key_semi w.0.value_semi)
              ∙ get_tag_from-value_of f key (u ∷ ts) h w.1 shorter)
    ]

-- On the printed form of a list of tags `get_tag` gives the value of the first tag with that key,
-- and the empty string if there is none. The key is not empty, as `get_tag` expects, no key has '='
-- or ';' and no value has ';'.
pub get_tag-value_of :
    (msg : IrcMessage) (key : Bytes) (ts : List Tag)
    → msg.raw_tags ≡ print_tags ts
    → 0 < length key
    → Lacks b'=' key
    → AllTags ts
    → get_tag msg key ≡ value_of key ts
unfolding get_tag
get_tag-value_of msg key ts same _ h w =
    rw same (get_tag_from-value_of (length (print_tags ts)) key ts h w (omega arith))
