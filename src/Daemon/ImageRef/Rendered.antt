-- ===== src/Daemon/ImageRef/Rendered.antt =====
-- What `String` prints of a reference that `parseImageReference` accepts (imageref.go).
use maid_cafe.Base.{
  ◌≡◌, refl, inl, inr, true, false, ◌&&◌, [], ◌∷◌, arith, ok, Bool-cases, ◌++◌, not, append_assoc,
  some, none, append-nil, ◌∙◌, if◌then◌else◌,
}
use maid_cafe.Base.Text.{
  Bytes, str_eq, all_bytes, cut, contains_byte, codes, has_prefix, cut_last, eq_of_str_eq,
  trim_space,
}
use maid_cafe.Base.Text.Cuts.{
  contains_byte-append, cut-append, cut-lacks, cut_last-append, cut_last-lacks,
}
use maid_cafe.Base.Text.Graphic.{all_bytes-append, all_bytes-weaken, is_graphic, trim_space-graphic}
use maid_cafe.Privfs.Names.{matches, contains_byte-all_bytes}
use maid_cafe.Daemon.ImageRef.{
  ImageReference, before_word, is_tag_byte, is_host_byte, repository_from, image_repository_pattern,
  image_tag_pattern, image_digest_pattern, registry_host_pattern, take_digest, take_registry,
  finish_reference, parse_trimmed, take_tag, parse_image_reference, to_text, pinned,
}
use maid_cafe.Daemon.ImageRef.Shapes.{
  Valid, is_repository_byte, repository_from-bytes, host_bytes, tag_bytes, is_digest_byte,
  digest_bytes, parse_trimmed-Valid,
}

host-starts :
    (r s : Bytes)
    → registry_host_pattern r ≡ true
    → (str_eq (r ++ s) [] ≡ false) × (has_prefix (r ++ s) (codes "-") ≡ false)
unfolding registry_host_pattern str_eq has_prefix
host-starts [] s h = cc
host-starts (c ∷ r) s h = (refl, ground arith)

repository-filled : (s : Bytes) → image_repository_pattern s ≡ true → str_eq s [] ≡ false
unfolding image_repository_pattern repository_from str_eq
repository-filled [] h = cc
repository-filled (c ∷ s) h = refl

tag-filled : (s : Bytes) → image_tag_pattern s ≡ true → str_eq s [] ≡ false
unfolding image_tag_pattern matches str_eq
tag-filled [] h = cc
tag-filled (c ∷ s) h = refl

parse_trimmed-parts :
    (raw digest name registry rest : Bytes)
    → (str_eq raw [] ≡ false) × (has_prefix raw (codes "-") ≡ false)
    → take_digest raw ≡ ok (digest, name)
    → take_registry name ≡ ok (registry, rest)
    → parse_trimmed raw ≡ finish_reference digest registry (take_tag rest)
unfolding parse_trimmed
parse_trimmed-parts raw digest name registry rest (filled, plain) d r =
    rw (filled, plain, d) (rw r refl)

module _ (ref : ImageReference) (v : Valid ref) where
  repository_bytes : all_bytes is_repository_byte ref.repository ≡ true
  unfolding image_repository_pattern
  repository_bytes = repository_from-bytes before_word ref.repository (v.repository_shape)

  -- the parts of a valid reference in front of its tag or digest
  name_graphic : all_bytes is_graphic (ref.registry ++ (b'/' ∷ ref.repository)) ≡ true
  unfolding is_repository_byte all_bytes
  name_graphic =
      all_bytes-append is_graphic ref.registry (b'/' ∷ ref.repository)
        (all_bytes-weaken is_host_byte is_graphic ref.registry (λ c p. ground arith)
          (host_bytes ref.registry (v.host_shape)))
        (all_bytes-weaken is_repository_byte is_graphic ref.repository (λ c p. ground arith)
          repository_bytes)

  name_unpinned : contains_byte (ref.registry ++ (b'/' ∷ ref.repository)) b'@' ≡ false
  unfolding is_repository_byte contains_byte
  name_unpinned =
      contains_byte-append b'@' ref.registry (b'/' ∷ ref.repository)
        (contains_byte-all_bytes is_host_byte b'@' ref.registry refl
          (host_bytes ref.registry (v.host_shape)))
        (contains_byte-all_bytes is_repository_byte b'@' ref.repository refl repository_bytes)

  -- the registry is read back, whatever follows the repository
  take_registry-name :
      (s : Bytes)
      → take_registry ((ref.registry ++ (b'/' ∷ ref.repository)) ++ s)
        ≡ ok (ref.registry, ref.repository ++ s)
  unfolding take_registry
  take_registry-name s =
      let clear : contains_byte ref.registry b'/' ≡ false =
        contains_byte-all_bytes is_host_byte b'/' ref.registry refl
          (host_bytes ref.registry (v.host_shape)) in
      let cuts : cut b'/' (ref.registry ++ (b'/' ∷ (ref.repository ++ s)))
          ≡ some (ref.registry, ref.repository ++ s) =
        cut-append b'/' ref.registry (ref.repository ++ s) clear in
      let found : take_registry (ref.registry ++ (b'/' ∷ (ref.repository ++ s)))
          ≡ ok (ref.registry, ref.repository ++ s) =
        rw (cuts, v.host, v.host_shape, take_registry) refl in
      rw (append_assoc ref.registry (b'/' ∷ ref.repository) s) found

  name-starts :
      (s : Bytes)
      → (str_eq ((ref.registry ++ (b'/' ∷ ref.repository)) ++ s) [] ≡ false)
        × (has_prefix ((ref.registry ++ (b'/' ∷ ref.repository)) ++ s) (codes "-") ≡ false)
  name-starts s =
      rw (append_assoc ref.registry (b'/' ∷ ref.repository) s)
        (host-starts ref.registry ((b'/' ∷ ref.repository) ++ s) (v.host_shape))

  -- a valid name is taken as it is
  finish_reference-name :
      (digest tag : Bytes)
      → str_eq tag [] && str_eq digest [] ≡ false
      → not (str_eq tag []) && not (image_tag_pattern tag) ≡ false
      → finish_reference digest ref.registry (tag, ref.repository)
        ≡ ok (record {
          registry = ref.registry;
          repository = ref.repository;
          tag = tag;
          digest = digest;
        })
  unfolding finish_reference
  finish_reference-name digest tag some_end shape =
      rw
        (
          v.completed,
          repository-filled ref.repository (v.repository_shape),
          v.repository_shape,
          shape,
          some_end,
        )
        refl

  parse_trimmed-tagged :
      image_tag_pattern ref.tag ≡ true
      → parse_trimmed ((ref.registry ++ (b'/' ∷ ref.repository)) ++ (b':' ∷ ref.tag))
        ≡ ok (record {
          registry = ref.registry;
          repository = ref.repository;
          tag = ref.tag;
          digest = [];
        })
  unfolding take_digest take_tag contains_byte is_repository_byte str_eq
  parse_trimmed-tagged shape =
      let text = (ref.registry ++ (b'/' ∷ ref.repository)) ++ (b':' ∷ ref.tag) in
      let uncut : cut b'@' text ≡ none = cut-lacks b'@' text (
        contains_byte-append b'@' (ref.registry ++ (b'/' ∷ ref.repository)) (b':' ∷ ref.tag)
          name_unpinned
          (contains_byte-all_bytes is_tag_byte b'@' ref.tag refl (tag_bytes ref.tag shape))) in
      let cuts : cut_last b':' (ref.repository ++ (b':' ∷ ref.tag))
          ≡ some (ref.repository, ref.tag) =
        cut_last-append b':' ref.repository ref.tag
          (contains_byte-all_bytes is_tag_byte b':' ref.tag refl (tag_bytes ref.tag shape)) in
      let digest : take_digest text ≡ ok ([], text) = rw (uncut, take_digest) refl in
      let tag : take_tag (ref.repository ++ (b':' ∷ ref.tag)) ≡ (ref.tag, ref.repository) =
        rw (cuts, take_tag) refl in
      parse_trimmed-parts text [] text ref.registry (ref.repository ++ (b':' ∷ ref.tag))
        (name-starts (b':' ∷ ref.tag)) digest (take_registry-name (b':' ∷ ref.tag))
      ∙ rw tag (
          finish_reference-name [] ref.tag (rw (tag-filled ref.tag shape) refl)
            (rw (tag-filled ref.tag shape, shape) refl))

  parse_trimmed-pinned :
      str_eq ref.digest [] ≡ false
      → image_digest_pattern ref.digest ≡ true
      → parse_trimmed ((ref.registry ++ (b'/' ∷ ref.repository)) ++ (b'@' ∷ ref.digest))
        ≡ ok (record {
          registry = ref.registry;
          repository = ref.repository;
          tag = [];
          digest = ref.digest;
        })
  unfolding take_digest take_tag contains_byte is_repository_byte str_eq
  parse_trimmed-pinned given shape =
      let name = ref.registry ++ (b'/' ∷ ref.repository) in
      let text = name ++ (b'@' ∷ ref.digest) in
      let cuts : cut b'@' text ≡ some (name, ref.digest) =
        cut-append b'@' name ref.digest name_unpinned in
      let digest : take_digest text ≡ ok (ref.digest, name) = rw (cuts, shape, take_digest) refl in
      let uncut : cut_last b':' ref.repository ≡ none =
        cut_last-lacks b':' ref.repository
          (contains_byte-all_bytes is_repository_byte b':' ref.repository refl repository_bytes) in
      let tag : take_tag ref.repository ≡ ([], ref.repository) = rw (uncut, take_tag) refl in
      let registry : take_registry name ≡ ok (ref.registry, ref.repository) =
        let whole = take_registry-name [] in
        rw (append-nil (ref.registry ++ (b'/' ∷ ref.repository)), append-nil ref.repository) at
          whole in
      parse_trimmed-parts text ref.digest name ref.registry ref.repository
        (name-starts (b'@' ∷ ref.digest)) digest registry
      ∙ rw tag (finish_reference-name ref.digest [] (rw given refl) refl)

  -- what is printed, read again
  reread :
      parse_image_reference (to_text ref)
      ≡ ok (record {
        registry = ref.registry;
        repository = ref.repository;
        tag = if pinned ref then [] else ref.tag;
        digest = ref.digest;
      })
  unfolding parse_image_reference to_text pinned all_bytes is_digest_byte
  reread =
      let name = ref.registry ++ (b'/' ∷ ref.repository) in
      elim (Bool-cases (str_eq ref.digest [])) [
        | inl tagged ↦
            let shape : image_tag_pattern ref.tag ≡ true = v.tag_shape tagged in
            let graphic : all_bytes is_graphic (name ++ (b':' ∷ ref.tag)) ≡ true =
              all_bytes-append is_graphic name (b':' ∷ ref.tag) name_graphic (
                all_bytes-weaken is_tag_byte is_graphic ref.tag (λ c p. ground arith)
                  (tag_bytes ref.tag shape)) in
            let none_given : ref.digest ≡ [] = eq_of_str_eq ref.digest [] tagged in
            rw (tagged, none_given, trim_space-graphic (name ++ (b':' ∷ ref.tag)) graphic)
              (parse_trimmed-tagged shape)
        | inr given ↦
            let shape : image_digest_pattern ref.digest ≡ true = v.digest_shape given in
            let graphic : all_bytes is_graphic (name ++ (b'@' ∷ ref.digest)) ≡ true =
              all_bytes-append is_graphic name (b'@' ∷ ref.digest) name_graphic (
                all_bytes-weaken is_digest_byte is_graphic ref.digest (λ c p. ground arith)
                  (digest_bytes ref.digest shape)) in
            rw (given, trim_space-graphic (name ++ (b'@' ∷ ref.digest)) graphic)
              (parse_trimmed-pinned given shape)
      ]

-- A reference that `parseImageReference` returns is printed by `String` to a text that is read back
-- as the same registry, repository and digest, and as the same tag if there is no digest; beside a
-- digest the tag is lost.
pub parse_image_reference-to_text :
    (raw : Bytes) (ref : ImageReference)
    → parse_image_reference raw ≡ ok ref
    → parse_image_reference (to_text ref)
      ≡ ok (record {
        registry = ref.registry;
        repository = ref.repository;
        tag = if pinned ref then [] else ref.tag;
        digest = ref.digest;
      })
unfolding parse_image_reference
parse_image_reference-to_text raw ref h = reread ref (parse_trimmed-Valid (trim_space raw) ref h)
