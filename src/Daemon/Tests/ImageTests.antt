-- ===== src/Daemon/Tests/ImageTests.antt =====
-- The law of image references at a concrete input, and runs of the parser.
use maid_cafe.Base.{ok, err, ◌≡◌, refl, true, [], ◌++◌}
use maid_cafe.Base.Text.{
  Bytes, codes, str_eq, trim_space, has_prefix, cut, all_bytes, cut_last, contains_byte,
  strip_prefix,
}
use maid_cafe.Privfs.Names.{matches}
use maid_cafe.Daemon.ImageRef.{
  take_digest, image_digest_pattern, take_registry, finish_reference, take_tag,
  image_repository_pattern, repository_from, complete_name, is_docker_hub, image_tag_pattern,
  looks_like_host, registry_host_pattern, parse_trimmed, name_parts, ImageReference, ImageName,
  bad_digest, bad_host, bad_reference, bad_tag, parse_image_reference, parse_image_name_digest,
  to_text, pinned, api_host, same_repository,
}
use maid_cafe.Daemon.ImageRef.Rendered.{parse_image_reference-to_text}

abbrev a_digest : Bytes
a_digest = codes "sha256:0123456789abcdef0123456789abcdef"

-- a reference with a tag beside its digest
abbrev tagged_and_pinned : ImageReference
tagged_and_pinned = record {
  registry = codes "docker.io";
  repository = codes "library/nginx";
  tag = codes "1.25";
  digest = a_digest;
}

parses_both : parse_image_reference (codes " nginx:1.25@" ++ a_digest) ≡ ok tagged_and_pinned
unfolding parse_image_reference parse_trimmed str_eq trim_space has_prefix take_digest cut
    image_digest_pattern all_bytes take_registry finish_reference take_tag cut_last
    image_repository_pattern repository_from complete_name is_docker_hub contains_byte
    image_tag_pattern looks_like_host registry_host_pattern matches strip_prefix
parses_both = refl

parse_image_reference-to_text_example :
    parse_image_reference (to_text tagged_and_pinned)
    ≡ ok (record {
      registry = codes "docker.io";
      repository = codes "library/nginx";
      tag = [];
      digest = a_digest;
    })
unfolding pinned str_eq
parse_image_reference-to_text_example =
    parse_image_reference-to_text (codes " nginx:1.25@" ++ a_digest) tagged_and_pinned parses_both

prints_both : to_text tagged_and_pinned ≡ codes "docker.io/library/nginx@" ++ a_digest
unfolding to_text str_eq
prints_both = refl

parses_port :
    parse_image_reference (codes "localhost:5000/app:1")
    ≡ ok (record {
      registry = codes "localhost:5000";
      repository = codes "app";
      tag = codes "1";
      digest = [];
    })
unfolding parse_image_reference parse_trimmed str_eq trim_space has_prefix take_digest cut
    image_digest_pattern all_bytes take_registry finish_reference take_tag cut_last
    image_repository_pattern repository_from complete_name is_docker_hub contains_byte
    image_tag_pattern looks_like_host registry_host_pattern matches strip_prefix
parses_port = refl

refuses_option : parse_image_reference (codes "--help") ≡ err bad_reference
unfolding parse_image_reference parse_trimmed str_eq trim_space has_prefix take_digest cut
    image_digest_pattern all_bytes take_registry finish_reference take_tag cut_last
    image_repository_pattern repository_from complete_name is_docker_hub contains_byte
    image_tag_pattern looks_like_host registry_host_pattern matches strip_prefix
refuses_option = refl

refuses_climb : parse_image_reference (codes "../etc/passwd") ≡ err bad_host
unfolding parse_image_reference parse_trimmed str_eq trim_space has_prefix take_digest cut
    image_digest_pattern all_bytes take_registry finish_reference take_tag cut_last
    image_repository_pattern repository_from complete_name is_docker_hub contains_byte
    image_tag_pattern looks_like_host registry_host_pattern matches strip_prefix
refuses_climb = refl

refuses_words : parse_image_reference (codes "nginx:1.25 --force") ≡ err bad_tag
unfolding parse_image_reference parse_trimmed str_eq trim_space has_prefix take_digest cut
    image_digest_pattern all_bytes take_registry finish_reference take_tag cut_last
    image_repository_pattern repository_from complete_name is_docker_hub contains_byte
    image_tag_pattern looks_like_host registry_host_pattern matches strip_prefix
refuses_words = refl

refuses_digest : parse_image_reference (codes "nginx@sha256:short") ≡ err bad_digest
unfolding parse_image_reference parse_trimmed str_eq trim_space has_prefix take_digest cut
    image_digest_pattern all_bytes take_registry finish_reference take_tag cut_last
    image_repository_pattern repository_from complete_name is_docker_hub contains_byte
    image_tag_pattern looks_like_host registry_host_pattern matches strip_prefix
refuses_digest = refl

hub_host : api_host tagged_and_pinned ≡ codes "registry-1.docker.io"
unfolding api_host str_eq
hub_host = refl

abbrev pulled : ImageName
pulled = record {
  registry = codes "docker.io";
  repository = codes "library/nginx";
  digest = a_digest;
}

parses_pulled : parse_image_name_digest (codes "index.docker.io/nginx@" ++ a_digest) ≡ ok pulled
unfolding parse_image_name_digest trim_space strip_prefix cut_last name_parts cut looks_like_host
    contains_byte str_eq image_digest_pattern all_bytes
parses_pulled = refl

same_image : same_repository pulled tagged_and_pinned ≡ true
unfolding same_repository str_eq
same_image = refl
