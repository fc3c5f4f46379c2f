-- ===== src/Toml.antt =====
-- What the program uses of toml++: a tree of tables and values, its parser and its printer. It is a
-- parameter; `IsToml` is what toml++ documents of it.
pub mod Tree
use twitch_bot.Prelude.{◌≡◌, Bool, true, false, Option, none, some, List, ◌∷◌, if◌then◌else◌}
use twitch_bot.Prelude.Bytes.{Bytes, equal}
use twitch_bot.Prelude.Assoc.{lookup, IsMap}

-- `toml::table` and `toml::node`: `get`, `as_table`, `value<std::string>`, the entries in the order of
-- iteration, `insert`, which leaves a key that is there, and `insert_or_assign`. A file is its bytes;
-- `parse_file` is none where it throws, and `print` is `operator<<`.
pub record Toml : Type 1 where
  pub File : Type 0
  pub Table : Type 0
  pub Node : Type 0
  pub parse_file : File → Option Table
  pub print : Table → File
  pub get : Bytes → Table → Option Node
  pub entries : Table → List (Bytes × Node)
  pub as_table : Node → Option Table
  pub value_string : Node → Option Bytes
  pub empty_table : Table
  pub table_node : Table → Node
  pub string_node : Bytes → Node
  pub insert : Bytes → Node → Table → Table
  pub insert_or_assign : Bytes → Node → Table → Table

-- The value of a key once a value is inserted under another, or under it.
abbrev pub kept_or : {A : Type 0} → Option A → A → A
kept_or (some old) new = old
kept_or none new = new

pub record IsToml (T : Toml) : Type 0 where
  pub parsed : (t : T.Table) → T.parse_file (T.print t) ≡ some t
  pub is_table : (t : T.Table) → T.as_table (T.table_node t) ≡ some t
  pub is_string : (s : Bytes) → T.value_string (T.string_node s) ≡ some s
  pub get_empty : (key : Bytes) → T.get key T.empty_table ≡ none
  pub get-insert :
      (key other : Bytes) (n : T.Node) (t : T.Table)
      → T.get other (T.insert key n t)
        ≡ (if equal key other then some (kept_or (T.get other t) n) else T.get other t)
  pub get-insert_or_assign :
      (key other : Bytes) (n : T.Node) (t : T.Table)
      → T.get other (T.insert_or_assign key n t)
        ≡ (if equal key other then some n else T.get other t)
  pub lookup-entries : (key : Bytes) (t : T.Table) → lookup key (T.entries t) ≡ T.get key t
  pub entries-IsMap : (t : T.Table) → IsMap (T.entries t)
