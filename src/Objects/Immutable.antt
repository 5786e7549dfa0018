-- ===== src/Objects/Immutable.antt =====
-- hub/storage/objects.py: what is stored is read back, and stays.
use ori_skills_hub.Prelude.{
  ◌≡◌, refl, sym, ap, subst, ◌∙◌, ◌⊎◌, inl, inr, Text, true, Option, none, some, List, ◌∷◌, is_nil,
  text_eq, text_eq_iff, text_eq_refl, is_some, Bool-cases, ok, >>=-eq-ok, ok-eq, guard-eq-ok,
  reject-eq-ok,
}
use ori_skills_hub.Signing.{Bytes, is_digest}
use ori_skills_hub.Archive.Tree.{lookup}
use ori_skills_hub.Objects.{
  storage_safety, storage_integrity, ContentAddressedStorage, digest_of_bytes, path_for,
  link_object, store, read_bytes, read_object,
}

lookup-head :
    {A : Type 0} (k : Text) (a : A) (rest : List (Text × A)) → lookup ((k, a) ∷ rest) k ≡ some a
unfolding lookup
lookup-head k a rest = rw (text_eq_refl k) refl

lookup-tail :
    {A : Type 0} (k j : Text) (a b : A) (rest : List (Text × A))
    → lookup rest k ≡ none
    → lookup rest j ≡ some b
    → lookup ((k, a) ∷ rest) j ≡ some b
unfolding lookup
lookup-tail k j a b rest n h = elim (Bool-cases (text_eq k j)) [
  | inl e ↦ cc (ap is_some (sym n ∙ ap (lookup rest) ((text_eq_iff k j).0 e) ∙ h))
  | inr e ↦ rw e h
]

-- After a call that returns, the object of the digest is the one that was there, or the new bytes.
link_object-objects :
    (sha256_hex : Bytes → Text) (digest : Text) (b : Bytes) (o : Option Bytes)
    (s s' : ContentAddressedStorage)
    → lookup s.objects (path_for digest) ≡ o
    → link_object sha256_hex digest b o s ≡ ok s'
    → ((j : Text) (c : Bytes) → lookup s.objects j ≡ some c → lookup s'.objects j ≡ some c)
      × ((lookup s'.objects (path_for digest) ≡ some b)
          ⊎ ((c : Bytes) × (o ≡ some c) × (lookup s'.objects (path_for digest) ≡ some c)))
unfolding link_object
link_object-objects sha256_hex digest b none s s' e h =
    let p = ap (λ (x : ContentAddressedStorage). x.objects) (ok-eq _ s' h) in
    (
      λ j c f.
          subst (λ os. lookup os j ≡ some c) p (lookup-tail (path_for digest) j b c s.objects e f),
      inl (
          subst (λ os. lookup os (path_for digest) ≡ some b) p
            (lookup-head (path_for digest) b s.objects)),
    )
link_object-objects sha256_hex digest b (some c) s s' e h =
    let (_, k) = guard-eq-ok _ storage_integrity _ h in
    let p = ok-eq s s' k in
    (
      λ j d f. subst (λ x. lookup x.objects j ≡ some d) p f,
      inr (
        c,
        refl,
        subst (λ (x : ContentAddressedStorage). lookup x.objects (path_for digest) ≡ some c) p e,
      ),
    )

read_bytes-some : (o : Option Bytes) (b : Bytes) → read_bytes o ≡ ok b → o ≡ some b
unfolding read_bytes
read_bytes-some none b h = cc
read_bytes-some (some c) b h = ap some (ok-eq c b h)

read_object-found :
    (sha256_hex : Bytes → Text) (digest : Text) (s : ContentAddressedStorage) (b : Bytes)
    → is_digest digest ≡ true
    → lookup s.objects (path_for digest) ≡ some b
    → digest_of_bytes sha256_hex b ≡ digest
    → read_object sha256_hex digest s ≡ ok b
unfolding read_object
read_object-found sha256_hex digest s b d f e = rw (d, f, e, text_eq_refl digest) refl

-- What could be read before a call of `store` is read unchanged after it.
pub store-keeps :
    (sha256_hex : Bytes → Text) (artifact_bytes : Bytes) (s : ContentAddressedStorage)
    (r : Text × ContentAddressedStorage) (digest : Text) (b : Bytes)
    → store sha256_hex artifact_bytes s ≡ ok r
    → read_object sha256_hex digest s ≡ ok b
    → read_object sha256_hex digest r.1 ≡ ok b
unfolding store read_object
store-keeps sha256_hex artifact_bytes s r digest b h q =
    let new = digest_of_bytes sha256_hex artifact_bytes in
    let (_, k) = reject-eq-ok (is_nil artifact_bytes) storage_safety _ h in
    let (s', e, k1) =
      >>=-eq-ok (link_object sha256_hex new artifact_bytes (lookup s.objects (path_for new)) s) _
        k in
    let (keeps, _) =
      link_object-objects sha256_hex new artifact_bytes (lookup s.objects (path_for new)) s s' refl
        e in
    let (d, l) = guard-eq-ok (is_digest digest) storage_safety _ q in
    let (c, f, l1) = >>=-eq-ok (read_bytes (lookup s.objects (path_for digest))) _ l in
    let (same, l2) = guard-eq-ok _ storage_integrity _ l1 in
    let found = keeps (path_for digest) c (read_bytes-some _ c f) in
    subst (λ (x : Text × ContentAddressedStorage). read_object sha256_hex digest x.1 ≡ ok b)
      (ok-eq (new, s') r k1)
      (read_object-found sha256_hex digest s' c d found ((text_eq_iff _ digest).0 same)
        ∙ ap ok (ok-eq c b l2))

-- What `store` has stored is read back under the digest that it returns, unless another object of
-- the same digest was there before, and given that the digest has 64 hexadecimal digits.
pub read_object-store :
    (sha256_hex : Bytes → Text) (artifact_bytes : Bytes) (s : ContentAddressedStorage)
    (r : Text × ContentAddressedStorage)
    → store sha256_hex artifact_bytes s ≡ ok r
    → is_digest (digest_of_bytes sha256_hex artifact_bytes) ≡ true
    → ((c : Bytes)
        → lookup s.objects (path_for (digest_of_bytes sha256_hex artifact_bytes)) ≡ some c
        → c ≡ artifact_bytes)
    → read_object sha256_hex r.0 r.1 ≡ ok artifact_bytes
unfolding store
read_object-store sha256_hex artifact_bytes s r h d one =
    let new = digest_of_bytes sha256_hex artifact_bytes in
    let (_, k) = reject-eq-ok (is_nil artifact_bytes) storage_safety _ h in
    let (s', e, k1) =
      >>=-eq-ok (link_object sha256_hex new artifact_bytes (lookup s.objects (path_for new)) s) _
        k in
    let (_, there) =
      link_object-objects sha256_hex new artifact_bytes (lookup s.objects (path_for new)) s s' refl
        e in
    subst
      (λ (x : Text × ContentAddressedStorage). read_object sha256_hex x.0 x.1 ≡ ok artifact_bytes)
      (ok-eq (new, s') r k1)
      (read_object-found sha256_hex new s' artifact_bytes d
        (elim there [ inl f ↦ f | inr (c, o, f) ↦ f ∙ ap some (one c o) ]) refl)
