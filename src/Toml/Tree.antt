-- ===== src/Toml/Tree.antt =====
-- Trees of strings, which meet what is asked of toml++.
use twitch_bot.Prelude.{
  ◌≡◌, refl, inl, inr, Option, none, some, List, [], ◌∷◌, if◌then◌else◌, arith, Bool-cases,
}
use twitch_bot.Prelude.Bytes.{Bytes, equal}
use twitch_bot.Prelude.Assoc.{
  lookup, erase, IsMap, equal_trans, equal_comm, lookup-erase_if, lookup-erase_self, erase-IsMap,
}
use twitch_bot.Toml.{Toml, IsToml, kept_or}

mutual
  pub data Node : Type 0 where
    text : Bytes → Node
    number : Node
    sub_table : Table → Node

  pub data Table : Type 0 where
    empty : Table
    entry : Bytes → Node → Table → Table

unfoldable pub get : Bytes → Table → Option Node
get key empty = none
get key (entry k n t) = if equal k key then some n else get key t

unfoldable pub entries : Table → List (Bytes × Node)
entries empty = []
entries (entry k n t) = (k, n) ∷ erase k (entries t)

unfoldable pub as_table : Node → Option Table
as_table (text s) = none
as_table number = none
as_table (sub_table t) = some t

unfoldable pub value_string : Node → Option Bytes
value_string (text s) = some s
value_string number = none
value_string (sub_table t) = none

unfoldable pub insert_or_assign : Bytes → Node → Table → Table
insert_or_assign key v empty = entry key v empty
insert_or_assign key v (entry k n t) =
    if equal k key then entry k v t else entry k n (insert_or_assign key v t)

unfoldable pub insert : Bytes → Node → Table → Table
insert key v empty = entry key v empty
insert key v (entry k n t) = if equal k key then entry k n t else entry k n (insert key v t)

-- A file is what it parses as, if it does.
abbrev pub trees : Toml
trees = record {
  File = Option Table;
  Table = Table;
  Node = Node;
  parse_file = λ file. file;
  print = λ t. some t;
  get = get;
  entries = entries;
  as_table = as_table;
  value_string = value_string;
  empty_table = empty;
  table_node = sub_table;
  string_node = text;
  insert = insert;
  insert_or_assign = insert_or_assign;
}

get-insert_or_assign :
    (key other : Bytes) (v : Node) (t : Table)
    → get other (insert_or_assign key v t) ≡ (if equal key other then some v else get other t)
unfolding get insert_or_assign
get-insert_or_assign key other v empty = refl
get-insert_or_assign key other v (entry k n t) = elim (Bool-cases (equal k key)) [
  | inl same ↦ ground (arith, same, equal_trans k key other same)
  | inr differs ↦ ground (
    arith,
    differs,
    get-insert_or_assign key other v t,
    equal_trans k other key,
    equal_comm other key,
  )
]

get-insert :
    (key other : Bytes) (v : Node) (t : Table)
    → get other (insert key v t)
      ≡ (if equal key other then some (kept_or (get other t) v) else get other t)
unfolding get insert
get-insert key other v empty = refl
get-insert key other v (entry k n t) = elim (Bool-cases (equal k key)) [
  | inl same ↦ ground (arith, same, equal_trans k key other same)
  | inr differs ↦
      ground
        (arith, differs, get-insert key other v t, equal_trans k other key, equal_comm other key)
]

lookup-entries : (key : Bytes) (t : Table) → lookup key (entries t) ≡ get key t
unfolding lookup entries get
lookup-entries key empty = refl
lookup-entries key (entry k n t) =
    ground (arith, lookup-erase_if k key (entries t), lookup-entries key t)

entries-IsMap : (t : Table) → IsMap (entries t)
unfolding entries
entries-IsMap empty = tt
entries-IsMap (entry k n t) =
    (lookup-erase_self k (entries t), erase-IsMap k (entries t) (entries-IsMap t))

pub trees-IsToml : IsToml trees
unfolding as_table value_string get
trees-IsToml = record {
  parsed = λ t. refl;
  is_table = λ t. refl;
  is_string = λ s. refl;
  get_empty = λ key. refl;
  get-insert = get-insert;
  get-insert_or_assign = get-insert_or_assign;
  lookup-entries = lookup-entries;
  entries-IsMap = entries-IsMap;
}
