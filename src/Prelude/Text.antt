-- ===== src/Prelude/Text.antt =====
-- Joining native texts, as Python's f-strings and `join` do.
use Prim.Native.String.{String, ◌++◌}
use mathlib.Core.Bool.{Bool, false, not}
use mathlib.Core.Option.{Option, none, some}
use mathlib.Core.List.{List, [], ◌∷◌}
use albs_web_server.Prelude.Equality.{◌==◌, string_eq}

unfoldable pub concat : List String → String
concat [] = ""
concat (s ∷ ss) = s ++ concat ss

-- The truth value of a text or `None`: there is a text, and it is not empty.
unfoldable pub is_set : Option String → Bool
is_set none = false
is_set (some text) = not (text == "")
