-- ===== src/Go/Command/Get/Checks.antt =====
-- cmd/tframe: what each check has found where it passed.
use proto.Base.{
  ℕ, ◌≡◌, ◌≢◌, sym, ap, ◌∙◌, ◌⊎◌, inl, inr, Bool-cases, true, List, [], ◌∷◌, ◌++◌, String, str_eq,
  eq_iff, All, Outcome, ok, map_err, map_err-eq-ok, >>=-eq-ok, ok-injective, arith,
}
use proto.Binary.Hex.{trim_start, trim_end}
use proto.Go.Frame.Types.{compress_none}
use proto.Go.Command.Manifest.{
  ApiRoute, Manifest, parse_url, find_in, lowers_to, names_none, compress_method_flag,
}
use proto.Go.Command.Get.{Url, asked_path, parse_tcp_url, compression_set}

pub parse_tcp_url-eq-ok :
    (parse : String → Outcome String Url) (raw host path : String)
    → parse_tcp_url parse raw ≡ ok (host, path)
    → (u : Url) × (parse raw ≡ ok u)
      × (u.scheme ≡ "tcp")
      × (u.host ≢ "")
      × (host ≡ u.host)
      × (path ≡ asked_path u.path)
unfolding parse_tcp_url
parse_tcp_url-eq-ok parse raw host path e =
    let (u, found, e₁) = >>=-eq-ok (map_err parse_url (parse raw)) _ e in
    elim (Bool-cases (str_eq u.scheme "tcp")) [
      | inl tcp ↦ elim (Bool-cases (str_eq u.host "")) [
        | inl missing ↦ cc (rw (tcp, missing) at e₁)
        | inr there ↦
            let both : (u.host, asked_path u.path) ≡ (host, path) =
              ok-injective (rw (tcp, there) at e₁) in
            (
              u,
              map_err-eq-ok parse_url (parse raw) found,
              (eq_iff u.scheme "tcp").0 tcp,
              λ none. cc ((eq_iff u.host "").1 none, there),
              ap (λ (p : String × String). p.0) (sym both),
              ap (λ (p : String × String). p.1) (sym both),
            )
      ]
      | inr other ↦ cc (rw other at e₁)
    ]

pub find_in-eq-ok :
    (path : String) (routes : List ApiRoute) (route : ApiRoute)
    → find_in path routes ≡ ok route
    → (earlier : List ApiRoute) × (later : List ApiRoute) × (routes ≡ earlier ++ route ∷ later)
      × (route.path ≡ path)
      × All (λ (r : ApiRoute). r.path ≢ path) earlier
unfolding find_in
find_in-eq-ok path [] route e = cc
find_in-eq-ok path (r ∷ routes) route e = elim (Bool-cases (str_eq r.path path)) [
  | inl here ↦
      let same : r ≡ route = ok-injective (rw here at e) in
      (
        [],
        routes,
        ap (λ x. x ∷ routes) same,
        ap (λ (x : ApiRoute). x.path) (sym same) ∙ (eq_iff r.path path).0 here,
        tt,
      )
  | inr there ↦
      let (earlier, later, whole, named, others) =
        find_in-eq-ok path routes route (rw there at e) in
      (
        r ∷ earlier,
        later,
        ap (λ xs. r ∷ xs) whole,
        named,
        ((λ same. cc ((eq_iff r.path path).1 same, there)), others),
      )
]

-- A method that packs.
abbrev pub Packs : Manifest → Type 0
Packs m =
    (lowers_to (trim_end (trim_start m.api.compress_method)) "gzip" ≡ true)
    ⊎ (lowers_to (trim_end (trim_start m.api.compress_method)) "deflate" ≡ true)

pub compress_method_flag-eq-ok :
    (m : Manifest) (flag : ℕ)
    → compress_method_flag m ≡ ok flag
    → ((names_none m.api.compress_method ≡ true) × (flag ≡ compress_none)) ⊎ Packs m
unfolding compress_method_flag
compress_method_flag-eq-ok m flag e = elim (Bool-cases (names_none m.api.compress_method)) [
  | inl none ↦ inl (none, sym (ok-injective (rw none at e)))
  | inr some ↦
      let method = trim_end (trim_start m.api.compress_method) in
      elim (Bool-cases (lowers_to method "gzip")) [
        | inl gzip ↦ inr (inl gzip)
        | inr other ↦ elim (Bool-cases (lowers_to method "deflate")) [
          | inl deflate ↦ inr (inr deflate)
          | inr unknown ↦ cc (rw (some, other, unknown) at e)
        ]
      ]
]

pub compression_set-eq-ok :
    (route : ApiRoute) (flag : ℕ)
    → compression_set route flag ≡ ok tt
    → route.compressed ≡ true
    → flag ≢ compress_none
unfolding compression_set
compression_set-eq-ok route flag e asked none = ground (arith, e, asked, none)
