-- ===== src/ServiceRef/Tests.antt =====
-- A name, and an id.
use sitey.Prelude.{◌≡◌, refl, true}
use sitey.Text.{codes, is_lower, is_digit}
use sitey.ServiceRef.{
  is_service_name, parse_service_ref, by_name, format_service_ref, is_service_char, by_id,
  is_id_like, is_number,
}
use sitey.ServiceRef.RoundTrip.{parse_service_ref-format}

blog_is_name : is_service_name (codes "blog-2") ≡ true
unfolding is_service_name is_service_char is_lower is_digit is_id_like is_number
blog_is_name = refl

parse_service_ref-format_example :
    (parse_service_ref (format_service_ref 120) ≡ by_id 120)
    × (parse_service_ref (codes "blog-2") ≡ by_name (codes "blog-2"))
parse_service_ref-format_example = parse_service_ref-format 120 (codes "blog-2") blog_is_name
