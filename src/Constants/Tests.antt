-- ===== src/Constants/Tests.antt =====
-- The properties of alws/constants.py at concrete texts.
use albs_web_server.Prelude.{◌≡◌, ok, ◌↔◌}
use albs_web_server.Constants.RefTypes.{from_text, to_text, from_text-to_text}

from_text-to_text_example : (from_text "git_tag" ≡ ok 2) ↔ (to_text 2 ≡ ok "git_tag")
from_text-to_text_example = from_text-to_text "git_tag" 2
