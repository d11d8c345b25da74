-- ===== src/Store/Ids.antt =====
-- What identifies or is only copied. An identifier is a number, and 0 is uuid.Nil; a `Blob` is a value
-- that is only copied; a `Text` is its characters, where the program trims it or looks into it.
use packfinderz_backend.Prelude.{ℕ, List}

abbrev pub Uuid : Type 0
Uuid = ℕ

abbrev pub Blob : Type 0
Blob = ℕ

abbrev pub Text : Type 0
Text = List ℕ
