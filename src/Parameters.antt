-- ===== src/Parameters.antt =====
-- The `HashMap<String, String>` of the server's parameters, as an association list with a key once.
use rust_opengauss.Prelude.{Option, none, some, List, [], ◌∷◌, Bytes, if◌then◌else◌}
use rust_opengauss.DbError.{same_text}

-- `HashMap::insert`
unfoldable pub insert : Bytes → Bytes → List (Bytes × Bytes) → List (Bytes × Bytes)
insert name value [] = (name, value) ∷ []
insert name value ((k, v) ∷ ps) =
    let rest = insert name value ps in
    if same_text name k then (name, value) ∷ ps else (k, v) ∷ rest

-- `HashMap::get`
unfoldable pub get : Bytes → List (Bytes × Bytes) → Option Bytes
get name [] = none
get name ((k, v) ∷ ps) = let rest = get name ps in if same_text name k then some v else rest
