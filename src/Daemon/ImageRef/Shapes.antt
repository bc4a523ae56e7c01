-- ===== src/Daemon/ImageRef/Shapes.antt =====
-- The shapes of the parts of a reference that `parseImageReference` returns (imageref.go).
use maid_cafe.Base.{
  ◌==◌, Option-cases, ℕ, ◌≡◌, refl, ◌⊎◌, inl, inr, Bool, true, false, ◌&&◌, ◌||◌, [], ◌∷◌, arith,
  ok, Bool-cases, ◌++◌, Result-cases,
}
use maid_cafe.Base.Text.{Bytes, str_eq, all_bytes, cut, contains_byte, codes}
use maid_cafe.Base.Text.Cuts.{cut-some}
use maid_cafe.Base.Text.Graphic.{all_bytes-append, all_bytes-weaken}
use maid_cafe.Privfs.Names.{matches}
use maid_cafe.Daemon.ImageRef.{
  ImageReference, RepositoryPlace, before_word, in_word, after_underscore, after_dash, is_word,
  is_hex, is_tag_byte, is_host_byte, repository_from, image_repository_pattern, image_tag_pattern,
  image_digest_pattern, registry_host_pattern, looks_like_host, complete_name, take_digest,
  take_registry, is_docker_hub, finish_reference, parse_trimmed, take_tag,
}

-- a byte of a repository's name
abbrev pub is_repository_byte : ℕ → Bool
is_repository_byte c = is_word c || ((c == b'.') || ((c == b'/') || ((c == b'_') || (c == b'-'))))

or_cases : (a : Bool) {b : Bool} → a || b ≡ true → (a ≡ true) ⊎ (b ≡ true)
or_cases true h = inl refl
or_cases false h = inr h

pub repository_from-bytes :
    (place : RepositoryPlace) (s : Bytes)
    → repository_from place s ≡ true
    → all_bytes is_repository_byte s ≡ true
unfolding repository_from all_bytes is_repository_byte
repository_from-bytes place [] h = refl
repository_from-bytes before_word (c ∷ s) h = ground (arith, repository_from-bytes in_word s)
repository_from-bytes in_word (c ∷ s) h =
    elim (or_cases (is_word c && repository_from in_word s) h) [
      | inl word ↦ ground (arith, repository_from-bytes in_word s)
      | inr rest ↦
          elim (or_cases (((c == b'.') || (c == b'/')) && repository_from before_word s) rest) [
            | inl ends ↦ ground (arith, repository_from-bytes before_word s)
            | inr more ↦ elim (or_cases ((c == b'_') && repository_from after_underscore s) more) [
              | inl low ↦ ground (arith, repository_from-bytes after_underscore s)
              | inr dash ↦ ground (arith, repository_from-bytes after_dash s)
            ]
          ]
    ]
repository_from-bytes after_underscore (c ∷ s) h =
    elim (or_cases (is_word c && repository_from in_word s) h) [
      | inl word ↦ ground (arith, repository_from-bytes in_word s)
      | inr low ↦ ground (arith, repository_from-bytes before_word s)
    ]
repository_from-bytes after_dash (c ∷ s) h =
    elim (or_cases (is_word c && repository_from in_word s) h) [
      | inl word ↦ ground (arith, repository_from-bytes in_word s)
      | inr dash ↦ ground (arith, repository_from-bytes after_dash s)
    ]

-- What is known of a reference that the parser accepts.
pub record Valid (ref : ImageReference) : Type 0 where
  pub host : looks_like_host ref.registry ≡ true
  pub host_shape : registry_host_pattern ref.registry ≡ true
  pub completed : complete_name ref.registry ref.repository ≡ (ref.registry, ref.repository)
  pub repository_shape : image_repository_pattern ref.repository ≡ true
  pub tag_shape : str_eq ref.digest [] ≡ true → image_tag_pattern ref.tag ≡ true
  pub digest_shape : str_eq ref.digest [] ≡ false → image_digest_pattern ref.digest ≡ true

pub host_bytes : (s : Bytes) → registry_host_pattern s ≡ true → all_bytes is_host_byte s ≡ true
unfolding registry_host_pattern all_bytes
host_bytes [] h = cc
host_bytes (c ∷ s) h = ground arith

pub tag_bytes : (s : Bytes) → image_tag_pattern s ≡ true → all_bytes is_tag_byte s ≡ true
unfolding image_tag_pattern matches all_bytes
tag_bytes [] h = cc
tag_bytes (c ∷ s) h = ground arith

-- a byte of a digest
abbrev pub is_digest_byte : ℕ → Bool
is_digest_byte c = is_word c || (c == b':')

pub digest_bytes : (s : Bytes) → image_digest_pattern s ≡ true → all_bytes is_digest_byte s ≡ true
unfolding image_digest_pattern all_bytes is_digest_byte
digest_bytes s h = elim (Option-cases (cut b':' s)) [
  | inl uncut ↦ cc (rw (uncut, image_digest_pattern) at h)
  | inr ((u, v), e) ↦
      let (text, lacks) = cut-some b':' s u v e in
      let shape = rw (e, image_digest_pattern) at h in
      rw text (
        all_bytes-append is_digest_byte u (b':' ∷ v)
          (all_bytes-weaken is_word is_digest_byte u (λ c p. ground arith) (ground arith))
          (all_bytes-weaken is_hex is_digest_byte v (λ c p. ground arith) (ground arith)))
]

-- what the parser has of a registry: none, or one that has the shape of a host
OfHost : Bytes → Type 0
OfHost r = (r ≡ []) ⊎ ((looks_like_host r ≡ true) × (registry_host_pattern r ≡ true))

take_digest-shape :
    (raw digest name : Bytes)
    → take_digest raw ≡ ok (digest, name)
    → str_eq digest [] ≡ false
    → image_digest_pattern digest ≡ true
unfolding take_digest str_eq
take_digest-shape raw digest name h some_digest = ground arith

take_registry-OfHost : (name r rest : Bytes) → take_registry name ≡ ok (r, rest) → OfHost r
unfolding take_registry OfHost
take_registry-OfHost name r rest h = ground arith

contains_byte-library : (name : Bytes) → contains_byte (codes "library/" ++ name) b'/' ≡ true
unfolding contains_byte
contains_byte-library name = refl

-- a completed name is complete
complete_name-again :
    (r name : Bytes)
    → complete_name ((complete_name r name).0) ((complete_name r name).1) ≡ complete_name r name
unfolding complete_name is_docker_hub str_eq
complete_name-again r name = elim (Bool-cases (is_docker_hub r)) [
  | inl hub ↦ elim (Bool-cases (contains_byte name b'/')) [
    | inl inner ↦ rw (hub, inner) (rw inner refl)
    | inr bare ↦ rw (hub, bare) (rw (contains_byte-library name) refl)
  ]
  | inr other ↦ rw other (rw other refl)
]

complete_name-OfHost :
    (r name : Bytes)
    → OfHost r
    → (looks_like_host ((complete_name r name).0) ≡ true)
      × (registry_host_pattern ((complete_name r name).0) ≡ true)
unfolding complete_name OfHost is_docker_hub str_eq looks_like_host registry_host_pattern
    contains_byte all_bytes
complete_name-OfHost r name (inl none_given) = rw none_given (refl, refl)
complete_name-OfHost r name (inr (looks, shape)) = elim (Bool-cases (is_docker_hub r)) [
  | inl hub ↦ rw hub (refl, refl)
  | inr other ↦ rw other (looks, shape)
]

latest_shape : image_tag_pattern (codes "latest") ≡ true
unfolding image_tag_pattern matches all_bytes
latest_shape = refl

finish_ok :
    (digest registry tag name : Bytes) (ref : ImageReference)
    → finish_reference digest registry (tag, name) ≡ ok ref
    → (ref.registry ≡ (complete_name registry name).0)
      × (ref.repository ≡ (complete_name registry name).1)
      × (ref.digest ≡ digest)
      × (image_repository_pattern ref.repository ≡ true)
      × (str_eq digest [] ≡ true → image_tag_pattern ref.tag ≡ true)
unfolding finish_reference str_eq
finish_ok digest registry tag name ref h = (
  ground arith,
  ground arith,
  ground arith,
  ground arith,
  λ bare. elim (Bool-cases (str_eq tag [])) [
    | inl missing ↦ ground (arith, latest_shape)
    | inr given ↦ ground arith
  ],
)

finish_reference-Valid :
    (digest registry tag name : Bytes) (ref : ImageReference)
    → (str_eq digest [] ≡ false → image_digest_pattern digest ≡ true)
    → OfHost registry
    → finish_reference digest registry (tag, name) ≡ ok ref
    → Valid ref
finish_reference-Valid digest registry tag name ref digested hosted h =
    let (e_registry, e_repository, e_digest, shape, tagged) =
      finish_ok digest registry tag name ref h in
    let (looks, host) = complete_name-OfHost registry name hosted in
    record {
      host = rw e_registry looks;
      host_shape = rw e_registry host;
      completed = rw (e_registry, e_repository) (complete_name-again registry name);
      repository_shape = shape;
      tag_shape = rw e_digest tagged;
      digest_shape = rw e_digest digested;
    }

pub parse_trimmed-Valid :
    (raw : Bytes) (ref : ImageReference) → parse_trimmed raw ≡ ok ref → Valid ref
unfolding parse_trimmed
parse_trimmed-Valid raw ref h = elim (Result-cases (take_digest raw)) [
  | inr (e, failed) ↦ ground (arith, failed)
  | inl ((digest, name), d) ↦ elim (Result-cases (take_registry name)) [
    | inr (e, failed) ↦ ground (arith, d, failed)
    | inl ((registry, rest), r) ↦
        finish_reference-Valid digest registry ((take_tag rest).0) ((take_tag rest).1) ref
          (take_digest-shape raw digest name d) (take_registry-OfHost name registry rest r)
          (ground (arith, d, r))
  ]
]
