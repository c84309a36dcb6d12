-- ===== src/Storage/Proxies/Errors.antt =====
-- The classification of driver errors by their text in internal/storage/proxies.go.
use frp_easy.Prelude.{Bool, true, false, ◌&&◌, ◌||◌, Text, codes, has_prefix, [], ◌∷◌, ◌≡◌}
use frp_easy.Storage.Proxies.Schema.{Constraint, check_failed, unique_name, unique_remote_port}

-- strings.Contains
unfoldable pub contains : Text → Text → Bool
unfolding has_prefix
contains s [] = has_prefix s []
contains s (c ∷ t) = has_prefix s (c ∷ t) || contains s t

-- isDuplicateNameError
unfoldable pub is_duplicate_name_error : Text → Bool
unfolding contains
is_duplicate_name_error s =
    contains (codes "UNIQUE constraint failed") s && contains (codes "proxies.name") s

-- isDuplicateRemotePortError
unfoldable pub is_duplicate_remote_port_error : Text → Bool
unfolding contains
is_duplicate_remote_port_error s =
    contains (codes "UNIQUE constraint failed") s && contains (codes "proxies.remote_port") s

-- The driver's texts. What SQLite documents of them: a UNIQUE error names the columns of the
-- constraint, and no other error has these words.
pub record Driver : Type 0 where
  pub name_first : Bool
  pub message : Constraint → Text
  pub io_message : Text
  pub name_text : is_duplicate_name_error (message unique_name) ≡ true
  pub remote_text : is_duplicate_remote_port_error (message unique_remote_port) ≡ true
  pub remote_text_no_name : is_duplicate_name_error (message unique_remote_port) ≡ false
  pub check_text : (contains (codes "UNIQUE constraint failed") (message check_failed)) ≡ false
  pub io_text : (contains (codes "UNIQUE constraint failed") io_message) ≡ false
