-- ===== src/ScanQueue/Evidence.antt =====
-- hub/db/scans.py: `_stats_json`, with the parts of `json.dumps` that it uses.
use ori_skills_hub.Prelude.{
  ℕ, zero, suc, ◌+◌, ◌-◌, ◌/◌, ◌%◌, Text, Bool, true, false, ◌&&◌, ◌||◌, [], ◌∷◌, ◌++◌, length,
  is_nil, codes, ltb, leb, ◌==◌, Result, ok, err, ◌>>=◌, ◌>>◌, reject, if◌then◌else◌, Option, none,
  some,
}
use ori_skills_hub.Value.{Value, Key, Fields, end, field, integer, name, pos}
use ori_skills_hub.Database.{Stats, DbError, value_error}

-- Decimal digits, least first; the fuel is above the number of digits.
digits_from : ℕ → ℕ → Text → Text
digits_from zero n acc = acc
digits_from (suc f) n acc =
    let more = digits_from f (n / 10) ((48 + n % 10) ∷ acc) in
    if ltb n 10 then (48 + n) ∷ acc else more

unfoldable pub decimal : ℕ → Text
unfolding digits_from
decimal n = digits_from (suc n) n []

hex_digit : ℕ → ℕ
hex_digit d = if ltb d 10 then 48 + d else 87 + d

-- `\u` and four hexadecimal digits.
unicode_escape : ℕ → Text
unfolding hex_digit
unicode_escape c =
    92
    ∷ 117
    ∷ hex_digit (c / 4096 % 16)
    ∷ hex_digit (c / 256 % 16)
    ∷ hex_digit (c / 16 % 16)
    ∷ hex_digit (c % 16)
    ∷ []

-- One character of a string under `ensure_ascii`; past U+FFFF it is a surrogate pair.
json_char : ℕ → Text
unfolding unicode_escape
json_char c =
    if c == 34 || c == 92
    then 92 ∷ c ∷ []
    else if c == 10
    then codes "\\n"
    else if c == 13
    then codes "\\r"
    else if c == 9
    then codes "\\t"
    else if c == 8
    then codes "\\b"
    else if c == 12
    then codes "\\f"
    else if leb 32 c && leb c 126
    then c ∷ []
    else if ltb c 65536
    then unicode_escape c
    else unicode_escape (55296 + (c - 65536) / 1024) ++ unicode_escape (56320 + (c - 65536) % 1024)

json_chars : Text → Text
unfolding json_char
json_chars [] = []
json_chars (c ∷ s) = json_char c ++ json_chars s

json_entries : Stats → Text
unfolding json_chars decimal
json_entries [] = []
json_entries ((k, n) ∷ []) = 34 ∷ json_chars k ++ 34 ∷ 58 ∷ decimal n
json_entries ((k, n) ∷ e ∷ rest) =
    34 ∷ json_chars k ++ (34 ∷ 58 ∷ (decimal n ++ 44 ∷ json_entries (e ∷ rest)))

-- `json.dumps(..., separators=(",", ":"))` of a mapping to counts.
unfoldable pub json_dumps : Stats → Text
unfolding json_entries
json_dumps stats = 123 ∷ json_entries stats ++ 125 ∷ []

-- The order of Python strings.
unfoldable pub text_lt : Text → Text → Bool
text_lt [] [] = false
text_lt [] (b ∷ t) = true
text_lt (a ∷ s) [] = false
text_lt (a ∷ s) (b ∷ t) = ltb a b || a == b && text_lt s t

insert_key : Text → ℕ → Stats → Stats
unfolding text_lt
insert_key k n [] = (k, n) ∷ []
insert_key k n ((j, m) ∷ rest) =
    if text_lt j k then (j, m) ∷ insert_key k n rest else (k, n) ∷ (j, m) ∷ rest

-- `sort_keys=True`
unfoldable pub sort_keys : Stats → Stats
unfolding insert_key
sort_keys [] = []
sort_keys ((k, n) ∷ rest) = insert_key k n (sort_keys rest)

-- One count of the argument.
unfoldable pub bounded_count : Key → Value → Result DbError (Text × ℕ)
bounded_count (name k) (integer (pos n)) = do
  reject (is_nil k || ltb 64 (length k) || ltb 1000000 n) value_error
  ok (k, n)
bounded_count _ _ = err value_error

unfoldable pub normalized : Fields → Result DbError Stats
unfolding bounded_count
normalized end = ok []
normalized (field k v rest) = do
  entry ← bounded_count k v
  more ← normalized rest
  ok (entry ∷ more)

-- `_stats_json`; the result stands for the text that it encodes.
unfoldable pub stats_json : Option Fields → Result DbError Stats
unfolding normalized json_dumps sort_keys
stats_json none = ok []
stats_json (some fields) = do
  counts ← normalized fields
  reject (ltb 4096 (length (json_dumps (sort_keys counts)))) value_error
  ok (sort_keys counts)
