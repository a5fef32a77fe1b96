-- ===== src/Jobs/CanonicalJson.antt =====
-- internal/jobs/canonical.go: the deterministic form of a JSON document. The decoder and the escaping
-- of strings are encoding/json's.
pub mod Laws
use task_forge.Base.{
  Text, ℕ, Bool, true, false, List, [], ◌∷◌, ◌++◌, Option, none, some, if◌then◌else◌, text,
}
use task_forge.Canonical.{text_lt}

-- What the decoder returns into an `any`; an object is a map, so its names are distinct.
mutual
  pub data Value : Type 0 where
    null : Value
    boolean : Bool → Value
    -- A json.Number keeps its literal.
    number : Text → Value
    string : Text → Value
    array : Items → Value
    object : Members → Value

  pub data Items : Type 0 where
    no_items : Items
    item : Value → Items → Items

  pub data Members : Type 0 where
    no_members : Members
    member : Text → Value → Members → Members

-- json.Decoder with UseNumber: the first value, and whether more follows it; and the encoder of a
-- string, without HTML escaping and the line break at its end.
pub record JsonCodec : Type 0 where
  pub decode : Text → Option (Value × Bool)
  pub quote : Text → Text

-- sort.Strings on the names of a map.
unfoldable pub add_member : Text × Text → List (Text × Text) → List (Text × Text)
add_member m [] = m ∷ []
add_member m (n ∷ ns) =
    let rest = add_member m ns in if text_lt m.0 n.0 then m ∷ n ∷ ns else n ∷ rest

-- Commas go between: `i > 0`.
abbrev pub after_comma : Text → Text
after_comma s = 44 ∷ s

module _ (quote : Text → Text) where
  -- The members, written one after the other.
  unfoldable pub write_rest : List (Text × Text) → Text
  write_rest [] = []
  write_rest ((k, v) ∷ ms) = after_comma (quote k ++ (58 ∷ v)) ++ write_rest ms

  unfoldable pub write_members : List (Text × Text) → Text
  write_members [] = []
  write_members ((k, v) ∷ ms) = (quote k ++ (58 ∷ v)) ++ write_rest ms

  -- writeCanonical
  unfoldable mutual
    pub write : Value → Text
    write null = text "null"
    write (boolean true) = text "true"
    write (boolean false) = text "false"
    write (number n) = n
    write (string s) = quote s
    write (array no_items) = text "[]"
    write (array (item v vs)) = 91 ∷ (write v ++ (write_items vs ++ text "]"))
    write (object ms) = 123 ∷ (write_members (written ms) ++ text "}")

    pub write_items : Items → Text
    write_items no_items = []
    write_items (item v vs) = after_comma (write v) ++ write_items vs

    -- The members in the order of their names, each with its value written.
    pub written : Members → List (Text × Text)
    written no_members = []
    written (member k v ms) = add_member (k, write v) (written ms)

abbrev pub whole_document : JsonCodec → Option (Value × Bool) → Option Text
whole_document c none = none
whole_document c (some (v, true)) = none
whole_document c (some (v, false)) = some (write c.quote v)

-- CanonicalJSON
unfoldable pub canonical_json : JsonCodec → Text → Option Text
canonical_json c raw = whole_document c (c.decode raw)
