-- ===== src/Publication/Inputs.antt =====
-- hub/db/repository.py: `_required`, `_audit_reason`, `_digest`.
use ori_skills_hub.Prelude.{
  ℕ, Text, Bool, ◌&&◌, ◌||◌, length, take, drop, all, is_nil, codes, text_eq, strip, leb, ◌==◌,
  Result, ok, ◌>>=◌, ◌>>◌, guard, reject,
}
use ori_skills_hub.Database.{DbError, value_error}

unfoldable pub required : Text → Result DbError Text
required value = do let clean = strip value; reject (is_nil clean) value_error; ok clean

unfoldable pub audit_reason : Text → Result DbError Text
unfolding required
audit_reason value = do
  clean ← required value
  guard (leb (length clean) 1024) value_error
  ok clean

unfoldable pub is_lower_hex : ℕ → Bool
is_lower_hex c = leb b'0' c && leb c b'9' || leb b'a' c && leb c b'f'

unfoldable pub digest : Text → Result DbError Text
unfolding required is_lower_hex
digest value = do
  clean ← required value
  guard
      (text_eq (take 7 clean) (codes "sha256:")
        && length (drop 7 clean) == 64
        && all is_lower_hex (drop 7 clean))
      value_error
  ok clean
