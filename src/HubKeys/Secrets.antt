-- ===== src/HubKeys/Secrets.antt =====
-- hub/security/hub_keys.py: the secrets that are read from a variable or a file.
use ori_skills_hub.Prelude.{
  ◌≤◌, ◌≡◌, ◌≢◌, arith, refl, sym, ap, subst, ◌∙◌, Text, Bool, true, false, Option, none, some, [],
  ◌∷◌, ◌++◌, reverse, length, is_nil, leb, leb→le, ◌==◌, ==_iff, ok, if◌then◌else◌, >>=-eq-ok,
  ok-eq, guard-eq-ok, reject-eq-ok,
}
use mathlib.Core.List.{reverse-append, reverse-reverse}
use ori_skills_hub.Signing.{Bytes}
use ori_skills_hub.HubKeys.{
  config_error, or_config, KeyFiles, strip_return, strip_newline, secret_of_file, choose_source,
}

-- Nothing, or a newline, or a carriage return and a newline.
pub data IsLineEnd : Text → Type 0 where
  nothing : IsLineEnd []
  newline : IsLineEnd (10 ∷ [])
  return_newline : IsLineEnd (13 ∷ 10 ∷ [])

-- The secret in the content of a file: all of it but for the end of the line.
pub record IsSecret (content secret : Text) : Type 0 where
  pub line_end : Text
  pub is_line_end : IsLineEnd line_end
  pub whole : content ≡ secret ++ line_end
  pub no_newline : (t : Text) → line_end ≡ [] → content ≢ t ++ (10 ∷ [])
  pub no_return : (t : Text) → line_end ≡ 10 ∷ [] → content ≢ t ++ (13 ∷ 10 ∷ [])
  pub short : length content ≤ 4096
  pub not_empty : is_nil secret ≡ false

-- The source of a secret: an inline value or a file, never both, or nothing.
pub data IsSource (files : KeyFiles) : Option Text → Option Text → Option Text → Type 0 where
  inline : (value : Text) → IsSource files (some value) none (some value)
  file :
      (file_name content secret : Text)
      → files file_name ≡ some content
      → IsSecret content secret
      → IsSource files none (some file_name) (some secret)
  unset : IsSource files none none none

pub or_config-some : {A : Type 0} (o : Option A) (a : A) → or_config o ≡ ok a → o ≡ some a
or_config-some none a h = cc
or_config-some (some b) a h = ap some (ok-eq b a h)

-- The end of the line of a reversed text, and what the text is without it: it is the longest one.
pub record IsCut (t rest : Text) : Type 0 where
  pub line_end : Text
  pub is_line_end : IsLineEnd line_end
  pub split : t ≡ reverse line_end ++ rest
  pub no_newline : (u : Text) → line_end ≡ [] → t ≢ 10 ∷ u
  pub no_return : (u : Text) → line_end ≡ 10 ∷ [] → t ≢ 10 ∷ 13 ∷ u

pub strip_return-IsCut : (rest : Text) → IsCut (10 ∷ rest) (strip_return rest)
unfolding strip_return
strip_return-IsCut [] = record {
  line_end = 10 ∷ [];
  is_line_end = newline;
  split = refl;
  no_newline = λ u e h. cc e;
  no_return = λ u e h. cc h;
}
strip_return-IsCut (c ∷ rest) = go (c == 13) refl
  where
    go : (b : Bool) → (c == 13) ≡ b → IsCut (10 ∷ c ∷ rest) (if b then rest else c ∷ rest)
    go true e = record {
      line_end = 13 ∷ 10 ∷ [];
      is_line_end = return_newline;
      split = ap (λ x. 10 ∷ x ∷ rest) ((==_iff c 13).0 e);
      no_newline = λ u e h. cc e;
      no_return = λ u e h. cc e;
    }
    go false e = record {
      line_end = 10 ∷ [];
      is_line_end = newline;
      split = refl;
      no_newline = λ u e h. cc e;
      no_return = λ u k h. cc (e, (==_iff c 13).1 (ground (arith, h)));
    }

pub strip_newline-IsCut : (t : Text) → IsCut t (strip_newline t)
unfolding strip_newline
strip_newline-IsCut [] = record {
  line_end = [];
  is_line_end = nothing;
  split = refl;
  no_newline = λ u e h. cc h;
  no_return = λ u e h. cc h;
}
strip_newline-IsCut (c ∷ rest) = go (c == 10) refl
  where
    go : (b : Bool) → (c == 10) ≡ b → IsCut (c ∷ rest) (if b then strip_return rest else c ∷ rest)
    go true e =
        subst (λ x. IsCut (x ∷ rest) (strip_return rest)) (sym ((==_iff c 10).0 e))
          (strip_return-IsCut rest)
    go false e = record {
      line_end = [];
      is_line_end = nothing;
      split = refl;
      no_newline = λ u k h. cc (e, (==_iff c 10).1 (ground (arith, h)));
      no_return = λ u k h. cc k;
    }

pub secret_of_file-IsSecret :
    (content : Option Bytes) (secret : Text)
    → secret_of_file content ≡ ok secret
    → (raw : Bytes) × (content ≡ some raw) × IsSecret raw secret
unfolding secret_of_file
secret_of_file-IsSecret content secret h =
    let (raw, e, h1) = >>=-eq-ok (or_config content) _ h in
    let (short, h2) = guard-eq-ok (leb (length raw) 4096) config_error _ h1 in
    let (_, h3) = guard-eq-ok _ config_error _ h2 in
    let (some_left, h4) = reject-eq-ok _ config_error _ h3 in
    let kept = ok-eq (reverse (strip_newline (reverse raw))) secret h4 in
    let cut = strip_newline-IsCut (reverse raw) in
    (
      raw,
      or_config-some content raw e,
      record {
        line_end = cut.line_end;
        is_line_end = cut.is_line_end;
        whole =
            sym (reverse-reverse raw)
            ∙ ap reverse cut.split
            ∙ reverse-append (reverse cut.line_end) (strip_newline (reverse raw))
            ∙ ap (λ t. reverse (strip_newline (reverse raw)) ++ t) (reverse-reverse cut.line_end)
            ∙ ap (λ t. t ++ cut.line_end) kept;
        no_newline =
            λ t e h. cut.no_newline (reverse t) e (ap reverse h ∙ reverse-append t (10 ∷ []));
        no_return =
            λ t e h. cut.no_return (reverse t) e (ap reverse h ∙ reverse-append t (13 ∷ 10 ∷ []));
        short = leb→le _ _ short;
        not_empty = ap is_nil (sym kept) ∙ some_left;
      },
    )

pub choose_source-IsSource :
    (files : KeyFiles) (value file_name secret : Option Text)
    → choose_source files value file_name ≡ ok secret
    → IsSource files value file_name secret
unfolding choose_source
choose_source-IsSource files (some v) (some f) secret h = cc
choose_source-IsSource files (some v) none secret h =
    subst (IsSource files (some v) none) (ok-eq (some v) secret h) (inline v)
choose_source-IsSource files none none secret h =
    subst (IsSource files none none) (ok-eq none secret h) unset
choose_source-IsSource files none (some f) secret h =
    let (s, e, k) = >>=-eq-ok (secret_of_file (files f)) _ h in
    let (raw, there, is_secret) = secret_of_file-IsSecret (files f) s e in
    subst (IsSource files none (some f)) (ok-eq (some s) secret k) (file f raw s there is_secret)
