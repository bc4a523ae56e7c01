-- ===== src/Daemon/ImageRef.antt =====
-- Container image references, internal/daemon/imageref.go.
pub mod Shapes
pub mod Rendered
use maid_cafe.Base.{
  ltb, leb, ◌==◌, if◌then◌else◌, ltb→lt, leb→le, ==_iff, Bool-cases, &&_split, length, get_elem?,
  take, drop, All, filter, length-append, length-drop, drop-append, drop-drop, take-append-drop,
  All-append, Among, All-Among, take-append, length-take, take-take, take-all, Result, ok, err,
  ◌>>=◌, ◌>>◌, guard, Option-cases, Result-cases, ℕ, zero, suc, ◌+◌, ◌-◌, ◌*◌, ◌/◌, ◌%◌, ◌^◌, ◌≤◌,
  ◌<◌, ◌≡◌, refl, sym, ap, ◌∙◌, ◌≢◌, ◌↔◌, ◌⊎◌, inl, inr, Bool, true, false, not, ◌&&◌, ◌||◌, Option,
  none, some, List, [], ◌∷◌, ◌++◌, map, append-nil, append_assoc, arith,
}
use maid_cafe.Base.Text.{
  Bytes, codes, str_eq, has_prefix, trim_space, contains_byte, all_bytes, cut, cut_last,
}
use maid_cafe.Privfs.Names.{is_digit, is_lower, is_alnum, matches}

-- `imageReference`
pub record ImageReference : Type 0 where
  pub registry : Bytes
  pub repository : Bytes
  pub tag : Bytes
  pub digest : Bytes

pub data ImageError : Type 0 where
  empty_reference bad_reference bad_digest bad_host missing_repository : ImageError
  bad_repository bad_tag no_digest : ImageError

-- `dockerHubRegistry`, `dockerHubAPIHost`
abbrev pub docker_hub_registry : Bytes
docker_hub_registry = codes "docker.io"

abbrev pub docker_hub_api_host : Bytes
docker_hub_api_host = codes "registry-1.docker.io"

-- a byte of a word of a repository's name
abbrev pub is_word : ℕ → Bool
is_word c = is_digit c || is_lower c

-- where `imageRepositoryPattern` stands: before a word, in one, or in a separator of a word's parts
pub data RepositoryPlace : Type 0 where
  before_word in_word after_underscore after_dash : RepositoryPlace

-- The rest of a repository's name, from that place. A dot, two underscores and a slash end in front
-- of a word; one underscore and any number of dashes may be followed by a word.
unfoldable pub repository_from : RepositoryPlace → Bytes → Bool
repository_from in_word [] = true
repository_from before_word [] = false
repository_from after_underscore [] = false
repository_from after_dash [] = false
repository_from before_word (c ∷ s) = is_word c && repository_from in_word s
repository_from in_word (c ∷ s) =
    (is_word c && repository_from in_word s)
    || ((((c == b'.') || (c == b'/')) && repository_from before_word s)
        || (((c == b'_') && repository_from after_underscore s)
            || ((c == b'-') && repository_from after_dash s)))
repository_from after_underscore (c ∷ s) =
    (is_word c && repository_from in_word s) || ((c == b'_') && repository_from before_word s)
repository_from after_dash (c ∷ s) =
    (is_word c && repository_from in_word s) || ((c == b'-') && repository_from after_dash s)

-- `imageRepositoryPattern`
unfoldable pub image_repository_pattern : Bytes → Bool
image_repository_pattern s = repository_from before_word s

-- a byte of a tag
abbrev pub is_tag_byte : ℕ → Bool
is_tag_byte c = is_alnum c || ((c == b'.') || ((c == b'_') || (c == b'-')))

-- `imageTagPattern`
unfoldable pub image_tag_pattern : Bytes → Bool
image_tag_pattern s = matches (λ c. is_alnum c || (c == b'_')) is_tag_byte 127 s

-- a digit of a digest
abbrev pub is_hex : ℕ → Bool
is_hex c = is_digit c || (leb b'a' c && leb c b'f')

-- `imageDigestPattern`: neither part has a colon
unfoldable pub image_digest_pattern : Bytes → Bool
image_digest_pattern s = elim (cut b':' s) [
  | none ↦ false
  | some (algorithm, hex) ↦
      not (str_eq algorithm [])
      && (all_bytes is_word algorithm && (all_bytes is_hex hex && leb 32 (length hex)))
]

-- a byte of a registry's host
abbrev pub is_host_byte : ℕ → Bool
is_host_byte c = is_alnum c || ((c == b'.') || ((c == b':') || (c == b'-')))

-- `registryHostPattern`
unfoldable pub registry_host_pattern : Bytes → Bool
registry_host_pattern [] = false
registry_host_pattern (c ∷ s) = is_alnum c && all_bytes is_host_byte s

-- the test of a leading segment that looks like a host
unfoldable pub looks_like_host : Bytes → Bool
looks_like_host first =
    contains_byte first b'.' || (contains_byte first b':' || str_eq first (codes "localhost"))

-- the digest of a reference, and what is before it
unfoldable pub take_digest : Bytes → Result ImageError (Bytes × Bytes)
take_digest raw = elim (cut b'@' raw) [
  | none ↦ ok ([], raw)
  | some (name, digest) ↦ if image_digest_pattern digest then ok (digest, name) else err bad_digest
]

-- the registry of a reference, and what is behind it
unfoldable pub take_registry : Bytes → Result ImageError (Bytes × Bytes)
take_registry name = elim (cut b'/' name) [
  | none ↦ ok ([], name)
  | some (first, rest) ↦
      if looks_like_host first
      then (if registry_host_pattern first then ok (first, rest) else err bad_host)
      else ok ([], name)
]

-- the tag of a reference, and what is before it
unfoldable pub take_tag : Bytes → Bytes × Bytes
take_tag name = elim (cut_last b':' name) [ none ↦ ([], name) | some (before, tag) ↦ (tag, before) ]

-- a registry that is Docker Hub
unfoldable pub is_docker_hub : Bytes → Bool
is_docker_hub registry =
    str_eq registry []
    || (str_eq registry docker_hub_registry || str_eq registry (codes "index.docker.io"))

-- the registry and the repository that a name stands for
unfoldable pub complete_name : Bytes → Bytes → Bytes × Bytes
complete_name registry name =
    if is_docker_hub registry
    then (docker_hub_registry, (if contains_byte name b'/' then name else codes "library/" ++ name))
    else (registry, name)

-- `parseImageReference` from the search for a repository
unfoldable pub finish_reference : Bytes → Bytes → Bytes × Bytes → Result ImageError ImageReference
finish_reference digest registry (tag, name) = do
  let (host, repository) = complete_name registry name
  guard (str_eq name []) missing_repository
  guard (not (image_repository_pattern repository)) bad_repository
  guard (not (str_eq tag []) && not (image_tag_pattern tag)) bad_tag
  ok (record {
    registry = host;
    repository = repository;
    tag = if str_eq tag [] && str_eq digest [] then codes "latest" else tag;
    digest = digest;
  })

-- `parseImageReference` on a text without spaces around it
unfoldable pub parse_trimmed : Bytes → Result ImageError ImageReference
parse_trimmed raw = do
  guard (str_eq raw []) empty_reference
  guard (has_prefix raw (codes "-")) bad_reference
  take_digest raw >>= λ d.
      take_registry (d.1) >>= λ r. finish_reference (d.0) (r.0) (take_tag (r.1))

-- `parseImageReference`
unfoldable pub parse_image_reference : Bytes → Result ImageError ImageReference
parse_image_reference raw = parse_trimmed (trim_space raw)

-- `Pinned`
unfoldable pub pinned : ImageReference → Bool
pinned ref = not (str_eq ref.digest [])

-- `APIHost`
unfoldable pub api_host : ImageReference → Bytes
api_host ref =
    if str_eq ref.registry docker_hub_registry || str_eq ref.registry (codes "index.docker.io")
    then docker_hub_api_host
    else ref.registry

-- `String`
unfoldable pub to_text : ImageReference → Bytes
to_text ref =
    let out = ref.registry ++ (b'/' ∷ ref.repository) in
    if str_eq ref.digest [] then out ++ (b':' ∷ ref.tag) else out ++ (b'@' ∷ ref.digest)

-- `imageName`
pub record ImageName : Type 0 where
  pub registry : Bytes
  pub repository : Bytes
  pub digest : Bytes

-- the registry and the repository of a pulled image's name
unfoldable pub name_parts : Bytes → Bytes × Bytes
name_parts name = elim (cut b'/' name) [
  | none ↦ (docker_hub_registry, name)
  | some (first, rest) ↦
      if looks_like_host first then (first, rest) else (docker_hub_registry, name)
]

-- `parseImageNameDigest`
unfoldable pub parse_image_name_digest : Bytes → Result ImageError ImageName
parse_image_name_digest raw = elim (cut_last b'@' (trim_space raw)) [
  | none ↦ err no_digest
  | some (name, digest) ↦ do
    let (first, rest) = name_parts name
    let registry = if str_eq first (codes "index.docker.io") then docker_hub_registry else first
    let bare = str_eq registry docker_hub_registry && not (contains_byte rest b'/')
    guard (str_eq name []) no_digest
    guard (not (image_digest_pattern digest)) bad_digest
    ok (record {
      registry = registry;
      repository = if bare then codes "library/" ++ rest else rest;
      digest = digest;
    })
]

-- `sameRepository`
unfoldable pub same_repository : ImageName → ImageReference → Bool
same_repository n ref = str_eq n.registry ref.registry && str_eq n.repository ref.repository
