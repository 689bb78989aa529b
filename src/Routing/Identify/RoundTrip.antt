-- ===== src/Routing/Identify/RoundTrip.antt =====
-- src/controlplane/routing.go: the three ways to name an endpoint reach the same id.
use mathlib.Core.List.{append_assoc}
use sovereign_core.Prelude.{
  Text, bytes, ◌==◌, ==_iff, strip, trim_suffix, Lacks, cut-append, trim_suffix-append, All,
  All-append, false, ◌≡◌, refl, ◌≢◌, [], ◌∷◌, ◌++◌, ok, arith,
}
use sovereign_core.Routing.Identify.{
  ConnAttempt, is_separator, parse_kv, sni_label, resolve_endpoint_id,
}
use sovereign_core.Routing.Identify.Options.{parse_kv-single}

-- An id that each of the three ways can carry.
pub record IsRoutable (id : Text) : Type 0 where
  pub named : id ≢ []
  pub no_dot : Lacks b'.' id
  pub no_semicolon : Lacks b';' id
  pub plain : All (λ c. is_separator c ≡ false) id
  pub not_pooled : trim_suffix id (bytes "-pooler") ≡ id

-- The host that StartEndpoint puts into a connection URI: the id, a suffix, the region.
abbrev pub host : Text → Text → Text → Text
host id suffix domain = id ++ (suffix ++ (b'.' ∷ domain))

abbrev by_sni : Text → Text → ConnAttempt
by_sni sni password = record { sni = sni; options = []; password = password }

host_ne : (id rest : Text) → IsRoutable id → id ++ rest ≢ []
host_ne [] rest h e = h.named refl
host_ne (c ∷ id) rest h e = cc

sni_label-host : (id domain : Text) → IsRoutable id → sni_label (host id [] domain) ≡ id
unfolding sni_label
sni_label-host id domain h = rw (cut-append b'.' id domain h.no_dot) h.not_pooled

-- The pooled host loses its suffix, whatever the id ends in.
sni_label-pooled :
    (id domain : Text) → IsRoutable id → sni_label (host id (bytes "-pooler") domain) ≡ id
unfolding sni_label bytes
sni_label-pooled id domain h =
    rw
      (
        ← append_assoc id (bytes "-pooler") (b'.' ∷ domain),
        cut-append b'.' (id ++ bytes "-pooler") domain
            (All-append (λ c. c ≢ b'.') id (bytes "-pooler") h.no_dot (omega arith)),
      )
      (trim_suffix-append id (bytes "-pooler"))

sni_answers :
    (sni options password id : Text)
    → sni ≢ []
    → id ≢ []
    → sni_label sni ≡ id
    → resolve_endpoint_id (record { sni = sni; options = options; password = password })
      ≡ ok (id, password, bytes "sni")
unfolding resolve_endpoint_id
sni_answers sni options password id n m e = ground (arith, ==_iff sni [], ==_iff (sni_label sni) [])

options_answer :
    (id password : Text)
    → IsRoutable id
    → resolve_endpoint_id
        (record { sni = []; options = bytes "endpoint=" ++ id; password = password })
      ≡ ok (id, password, bytes "options")
unfolding resolve_endpoint_id bytes
options_answer id password h = ground (
  arith,
  ==_iff [] [],
  ==_iff id [],
  parse_kv-single (bytes "endpoint") id (ground arith) (omega arith) h.plain,
)

password_answers :
    (id password : Text)
    → IsRoutable id
    → resolve_endpoint_id
        (record { sni = []; options = []; password = bytes "endpoint=" ++ (id ++ b';' ∷ password) })
      ≡ ok (id, password, bytes "password")
unfolding resolve_endpoint_id bytes ◌==◌ parse_kv strip
password_answers id password h = ground (arith, cut-append b';' id password h.no_semicolon)

-- For an id that is not empty, has no dot, semicolon, space or comma and does not end in "-pooler",
-- resolveEndpointID answers the id and the password, and names the method, for each of: an SNI whose
-- first label is the id, with or without "-pooler", whatever the options and the password are; no
-- SNI and the options "endpoint=<id>"; no SNI, no options and the password
-- "endpoint=<id>;<password>".
pub three_ways_agree :
    (id domain options password : Text)
    → IsRoutable id
    → (resolve_endpoint_id
          (record { sni = host id [] domain; options = options; password = password })
        ≡ ok (id, password, bytes "sni"))
      × (resolve_endpoint_id (record {
        sni = host id (bytes "-pooler") domain;
        options = options;
        password = password;
      })
          ≡ ok (id, password, bytes "sni"))
      × (resolve_endpoint_id
            (record { sni = []; options = bytes "endpoint=" ++ id; password = password })
          ≡ ok (id, password, bytes "options"))
      × (resolve_endpoint_id (record {
        sni = [];
        options = [];
        password = bytes "endpoint=" ++ (id ++ b';' ∷ password);
      })
          ≡ ok (id, password, bytes "password"))
three_ways_agree id domain options password h = (
  sni_answers _ options password id (host_ne id _ h) h.named (sni_label-host id domain h),
  sni_answers _ options password id (host_ne id _ h) h.named (sni_label-pooled id domain h),
  options_answer id password h,
  password_answers id password h,
)
