-- ===== src/Geoip/Lookup.antt =====
-- The cache of pingoo/geoip.rs changes no answer, and country codes go through text.
use pingoo.Prelude.{
  String, Option, none, some, Bool, true, false, ◌&&◌, ◌||◌, &&-eq-true, ◌≡◌, ◌↔◌, refl, sym, ap,
  ◌∙◌, subst, arith, Result, ok, err, get, insert, get-insert, if◌then◌else◌, Option-cases,
  Bool-cases, inl, inr, ◌==◌, ok-injective,
}
use pingoo.Net.{IpAddr, ip_eq, is_loopback, is_multicast}
use pingoo.HttpListener.{GeoipRecord}
use pingoo.Geoip.{
  Error, address_not_found, unspecified, CountryCode, invalid_country_code, is_letter,
  country_to_str, country_from_str, Mmdb, record_found, record_missing, lookup_failed, Cache,
  lookup_uncached, lookup,
}

from_str-accepts :
    (s : String) (c : CountryCode)
    → country_from_str s ≡ ok c
    → (s ≡ country_to_str c) × (is_letter c.first ≡ true) × (is_letter c.second ≡ true)
unfolding country_from_str country_to_str
from_str-accepts String.[] c h = ground arith
from_str-accepts (String.◌∷◌ x String.[]) c h = ground arith
from_str-accepts (String.◌∷◌ x (String.◌∷◌ y (String.◌∷◌ z s))) c h = ground arith
from_str-accepts (String.◌∷◌ x (String.◌∷◌ y String.[])) c h =
    elim (Bool-cases (is_letter x && is_letter y)) [
      | inl e ↦
          let (first, second) = &&-eq-true (is_letter x) (is_letter y) e in
          let made : CountryCode = record { first = x; second = y } in
          let go : Bool → Result CountryCode Error = λ b.
            if b then ok made else err (invalid_country_code (String.◌∷◌ x (String.◌∷◌ y ""))) in
          let same : made ≡ c = ok-injective Error (sym (ap go e) ∙ h) in
          subst
            (λ (d : CountryCode).
              (String.◌∷◌ x (String.◌∷◌ y "") ≡ country_to_str d)
              × (is_letter d.first ≡ true)
              × (is_letter d.second ≡ true))
            same (refl, first, second)
      | inr e ↦
          let made : CountryCode = record { first = x; second = y } in
          let go : Bool → Result CountryCode Error = λ b.
            if b then ok made else err (invalid_country_code (String.◌∷◌ x (String.◌∷◌ y ""))) in
          let failed = sym (ap go e) ∙ h in absurd (cc)
    ]

to_str-accepted :
    (c : CountryCode)
    → is_letter c.first ≡ true
    → is_letter c.second ≡ true
    → country_from_str (country_to_str c) ≡ ok c
unfolding country_from_str country_to_str
to_str-accepted c h k =
    ap
      (λ b.
        if b
        then ok c
        else err (invalid_country_code (String.◌∷◌ c.first (String.◌∷◌ c.second ""))))
      (ap (λ b. b && is_letter c.second) h ∙ k)

-- A text is accepted as a country code just if it is the text of a code of two capital letters.
pub country_from_str-eq-ok_iff :
    (s : String) (c : CountryCode)
    → (country_from_str s ≡ ok c)
      ↔ ((s ≡ country_to_str c) × (is_letter c.first ≡ true) × (is_letter c.second ≡ true))
country_from_str-eq-ok_iff s c =
    (from_str-accepts s c, λ (e, h, k). ap country_from_str e ∙ to_str-accepted c h k)

module _ (mmdb : IpAddr → Mmdb) where
  -- The cache holds what the database answers.
  abbrev pub IsCoherent : Cache → Type 0
  IsCoherent cache =
      (ip : IpAddr) (r : GeoipRecord) → get cache ip ≡ some r → mmdb ip ≡ record_found r

  -- the answer without a cache
  abbrev pub answer : IpAddr → Result GeoipRecord Error
  answer ip =
      if is_loopback ip || is_multicast ip then err (address_not_found ip) else elim (mmdb ip) [
        | record_found r ↦ ok r
        | record_missing ↦ err (address_not_found ip)
        | lookup_failed e ↦ err (unspecified e)
      ]

  insert-IsCoherent :
      (cache : Cache) (ip : IpAddr) (r : GeoipRecord)
      → IsCoherent cache
      → mmdb ip ≡ record_found r
      → IsCoherent (insert cache ip r)
  insert-IsCoherent cache ip r h e j q at =
      let eq = sym (get-insert cache ip r j) ∙ at in
      elim (Bool-cases (ip == j)) [
        | inl here ↦
            let same : r ≡ q = ground arith in
            subst (λ x. mmdb j ≡ record_found x) same
              (subst (λ i. mmdb i ≡ record_found r) ((ip_eq.same_iff ip j).0 here) e)
        | inr other ↦ h j q (ground arith)
      ]

  mmdb-cases :
      (cache : Cache) (ip : IpAddr) (m : Mmdb)
      → IsCoherent cache
      → mmdb ip ≡ m
      → let go : Cache × Result GeoipRecord Error = elim m [
        | record_found r ↦ (insert cache ip r, ok r)
        | record_missing ↦ (cache, err (address_not_found ip))
        | lookup_failed e ↦ (cache, err (unspecified e))
      ] in
        IsCoherent go.0
        × (go.1 ≡ elim m [
          | record_found r ↦ ok r
          | record_missing ↦ err (address_not_found ip)
          | lookup_failed e ↦ err (unspecified e)
        ])
  mmdb-cases cache ip (record_found r) h e = (insert-IsCoherent cache ip r h e, refl)
  mmdb-cases cache ip record_missing h e = (h, refl)
  mmdb-cases cache ip (lookup_failed x) h e = (h, refl)

  -- With a cache that holds what the database answers, a look-up answers what it would without the
  -- cache, and the cache still holds what the database answers; loopback and multicast addresses are
  -- never found.
  pub lookup-IsCoherent :
      (cache : Cache) (ip : IpAddr)
      → IsCoherent cache
      → IsCoherent (lookup mmdb cache ip).0 × ((lookup mmdb cache ip).1 ≡ answer ip)
  unfolding lookup lookup_uncached
  lookup-IsCoherent cache ip h =
      let uncached = lookup_uncached mmdb cache ip in
      let hit : Option GeoipRecord → Cache × Result GeoipRecord Error =
        λ o. elim o [ some r ↦ (cache, ok r) | none ↦ uncached ] in
      let go : Bool → Cache × Result GeoipRecord Error =
        λ b. if b then (cache, err (address_not_found ip)) else hit (get cache ip) in
      let spec : Mmdb → Result GeoipRecord Error = λ m. elim m [
        | record_found r ↦ ok r
        | record_missing ↦ err (address_not_found ip)
        | lookup_failed e ↦ err (unspecified e)
      ] in
      let ans : Bool → Result GeoipRecord Error =
        λ b. if b then err (address_not_found ip) else spec (mmdb ip) in
      elim (Bool-cases (is_loopback ip || is_multicast ip)) [
        | inl e ↦ subst (λ b. IsCoherent (go b).0 × ((go b).1 ≡ ans b)) (sym e) (h, refl)
        | inr e ↦
            subst (λ b. IsCoherent (go b).0 × ((go b).1 ≡ ans b)) (sym e)
              (elim (Option-cases (get cache ip)) [
                | inl f ↦
                    subst (λ o. IsCoherent (hit o).0 × ((hit o).1 ≡ ans false)) (sym f)
                      (mmdb-cases cache ip (mmdb ip) h refl)
                | inr (r, f) ↦
                    subst (λ o. IsCoherent (hit o).0 × ((hit o).1 ≡ ans false)) (sym f)
                      (h, sym (ap spec (h ip r f)))
              ])
      ]
