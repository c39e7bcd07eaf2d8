-- ===== src/Dex/Image/Splits.antt =====
-- What `splitImageRef` accepts.
use inari_operator.Base.{
  ℕ, suc, ◌≡◌, refl, false, some, ◌∷◌, ◌++◌, arith, length, take, drop, contains, nat_eq,
  Option-cases, Bool-cases, inl, inr, [], append_assoc, length-append, length-take,
  take-length-append, ap,
}
use inari_operator.Text.{Str, last_index}
use inari_operator.Text.Splits.{
  last_index_split, last_index-append, last_index-append_in, last_index-append_before,
  last_index-lt,
}
use inari_operator.Dex.Image.{split, refused, split_image_ref, tag_missing}

-- A reference that is `repository:tag`.
pub record IsTagged (image repository tag : Str) : Type 0 where
  pub parts : image ≡ repository ++ b':' ∷ tag
  pub no_digest : contains image b'@' ≡ false
  pub tag_no_colon : contains tag b':' ≡ false
  pub tag_no_slash : contains tag b'/' ≡ false

tag_no_slash_of :
    (r t : Str)
    → tag_missing (some (length r)) (last_index (r ++ b':' ∷ t) b'/') ≡ false
    → contains t b'/' ≡ false
unfolding tag_missing
tag_no_slash_of r t h = elim (Bool-cases (contains t b'/')) [
  | inr e ↦ e
  | inl e ↦
      let (j, at, le) = last_index-append_in (r ++ b':' ∷ []) b'/' t e in
      let at' : last_index (r ++ b':' ∷ t) b'/' ≡ some j = rw append_assoc at at in
      ground (arith, length-append r (b':' ∷ []))
]

tag_present_of :
    (r t : Str)
    → contains t b'/' ≡ false
    → tag_missing (some (length r)) (last_index (r ++ b':' ∷ t) b'/') ≡ false
unfolding tag_missing
tag_present_of r t h = elim (Option-cases (last_index r b'/')) [
  | inl e ↦ rw (last_index-append_before r b'/' (b':' ∷ t) h, e) refl
  | inr (j, e) ↦
      rw (last_index-append_before r b'/' (b':' ∷ t) h, e)
        (ground (arith, last_index-lt r b'/' j e))
]

drop_tag : (r : Str) (c : ℕ) (t : Str) → drop (suc (length r)) (r ++ c ∷ t) ≡ t
drop_tag [] c t = refl
drop_tag (x ∷ r) c t = drop_tag r c t

sound_at :
    (image : Str) (i : ℕ) (repository tag : Str)
    → last_index image b':' ≡ some i
    → contains image b'@' ≡ false
    → tag_missing (some i) (last_index image b'/') ≡ false
    → split (take i image) (drop (suc i) image) ≡ split repository tag
    → IsTagged image repository tag
sound_at image i repository tag e no_digest present h =
    let (eq, free, lt) = last_index_split image b':' i e in
    let r : take i image ≡ repository = cc in
    let t : drop (suc i) image ≡ tag = cc in
    let parts : image ≡ repository ++ b':' ∷ tag = rw (r, t) at eq in
    let at : i ≡ length repository = omega (arith, length-take i image, ap length r) in
    let present' : tag_missing (some (length repository))
          (last_index (repository ++ b':' ∷ tag) b'/')
        ≡ false =
      rw (← parts, ← at) present in
    record {
      parts = parts;
      no_digest = no_digest;
      tag_no_colon = rw t at free;
      tag_no_slash = tag_no_slash_of repository tag present';
    }

-- Where an image is cut into a repository and a tag, it is `repository:tag` and has no `@`, and the
-- tag holds neither a colon nor a slash.
pub split_image_ref_sound :
    (image repository tag : Str)
    → split_image_ref image ≡ split repository tag
    → IsTagged image repository tag
unfolding split_image_ref
split_image_ref_sound image repository tag h = elim (Bool-cases (contains image b'@')) [
  | inl e ↦ let bad : refused _ ≡ split repository tag = rw e at h in cc
  | inr e ↦ elim (Option-cases (last_index image b':')) [
    | inl none_at ↦ ground arith
    | inr (i, at) ↦ elim (Bool-cases (tag_missing (some i) (last_index image b'/'))) [
      | inl missing ↦ ground arith
      | inr present ↦ sound_at image i repository tag at e present (ground arith)
    ]
  ]
]

-- Every reference `repository:tag` without `@`, whose tag holds neither a colon nor a slash, is
-- accepted and cut into its two parts.
pub split_image_ref_complete :
    (image repository tag : Str)
    → IsTagged image repository tag
    → split_image_ref image ≡ split repository tag
unfolding split_image_ref
split_image_ref_complete image repository tag h =
    let at : last_index image b':' ≡ some (length repository) =
      rw h.parts (last_index-append repository b':' tag h.tag_no_colon) in
    let present : tag_missing (some (length repository)) (last_index image b'/') ≡ false =
      rw h.parts (tag_present_of repository tag h.tag_no_slash) in
    ground (
      arith,
      at,
      present,
      h.parts,
      take-length-append repository (b':' ∷ tag),
      drop_tag repository b':' tag,
    )
