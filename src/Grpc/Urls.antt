-- ===== src/Grpc/Urls.antt =====
-- Request URLs: buildRequestURL and parseRequestURL of grpc.go, and SplitRequestURL of
-- delayquene/types.go, which checks them.
pub mod Equiv
use gua.Base.{
  ◌≡◌, ◌⊎◌, refl, sym, subst, if◌then◌else◌, inl, inr, true, [], ◌∷◌, ◌++◌, Text, codes, Result, ok,
  err, arith,
}
use gua.Base.Strings.{has_prefix, drop_prefix, append-drop_prefix}
use gua.Queue.Types.{Error, invalid, is_target, split_request_url, http, grpc}
use gua.Grpc.{
  DeliveryType, delivery_http, delivery_grpc, delivery_other, build_request_url, parse_request_url,
}

-- The kind of a delivery, as the queue names it.
abbrev pub kind_of : DeliveryType → Text
kind_of delivery_grpc = grpc
kind_of _ = http

built :
    (P : Text → Type 0) (s : Text) {url : Text}
    → ◌≡◌ {A = Result Error Text} (ok s) (ok url)
    → P s
    → P url
built P s {url} h p = let e : s ≡ url = ground arith in subst P e p

-- A URL that was built is parsed into what it was built from.
pub parse-build :
    (d : DeliveryType) (target : Text) {url : Text}
    → build_request_url d target ≡ ok url
    → parse_request_url url ≡ (d, target)
unfolding build_request_url parse_request_url has_prefix drop_prefix
parse-build delivery_http [] h = absurd (ground arith)
parse-build delivery_http (c ∷ target) h =
    built (λ u. parse_request_url u ≡ (delivery_http, c ∷ target)) _ h refl
parse-build delivery_grpc [] h = absurd (ground arith)
parse-build delivery_grpc (c ∷ target) h =
    built (λ u. parse_request_url u ≡ (delivery_grpc, c ∷ target)) _ h refl
parse-build delivery_other target h = absurd (ground arith)

-- A URL that was built is accepted by the queue exactly if its target has no blanks, and is split into
-- the kind and the target.
pub split-build :
    (d : DeliveryType) (target : Text) {url : Text}
    → build_request_url d target ≡ ok url
    → split_request_url url ≡ (if is_target target then ok (kind_of d, target) else err invalid)
unfolding build_request_url split_request_url has_prefix drop_prefix
split-build delivery_http [] h = absurd (ground arith)
split-build delivery_http (c ∷ target) h =
    built
      (λ u.
        split_request_url u
        ≡ (if is_target (c ∷ target) then ok (http, c ∷ target) else err invalid))
      _ h refl
split-build delivery_grpc [] h = absurd (ground arith)
split-build delivery_grpc (c ∷ target) h =
    built
      (λ u.
        split_request_url u
        ≡ (if is_target (c ∷ target) then ok (grpc, c ∷ target) else err invalid))
      _ h refl
split-build delivery_other target h = absurd (ground arith)

-- The URLs that the queue accepts, with a kind and a target.
abbrev IsUrl : Text → Text → Text → Type 0
IsUrl url kind target =
    (((url ≡ codes "HTTP@" ++ target) × (kind ≡ http))
      ⊎ ((url ≡ codes "GRPC@" ++ target) × (kind ≡ grpc)))
    × (is_target target ≡ true)

split-IsUrl :
    (url : Text) {kind target : Text}
    → split_request_url url ≡ ok (kind, target)
    → IsUrl url kind target
unfolding split_request_url
split-IsUrl url h =
    ground (arith, append-drop_prefix url (codes "HTTP@"), append-drop_prefix url (codes "GRPC@"))

abbrev Rebuilt : Text → Text → Text → Type 0
Rebuilt url kind target =
    let (d, t) = parse_request_url url in
    (build_request_url d t ≡ ok url) × (kind_of d ≡ kind) × (t ≡ target)

Rebuilt-http :
    (target : Text) → is_target target ≡ true → Rebuilt (codes "HTTP@" ++ target) http target
unfolding build_request_url parse_request_url has_prefix drop_prefix is_target
Rebuilt-http [] h = cc
Rebuilt-http (c ∷ target) h = (refl, refl, refl)

Rebuilt-grpc :
    (target : Text) → is_target target ≡ true → Rebuilt (codes "GRPC@" ++ target) grpc target
unfolding build_request_url parse_request_url has_prefix drop_prefix is_target
Rebuilt-grpc [] h = cc
Rebuilt-grpc (c ∷ target) h = (refl, refl, refl)

-- A URL that the queue accepts is parsed into a delivery and a target from which it is built again.
pub build-parse :
    (url : Text) {kind target : Text}
    → split_request_url url ≡ ok (kind, target)
    → let (d, t) = parse_request_url url in
      (build_request_url d t ≡ ok url) × (kind_of d ≡ kind) × (t ≡ target)
build-parse url {kind} {target} h =
    let (cases, clean) = split-IsUrl url h in
    elim cases [
      | inl (u, k) ↦
          subst (λ u. Rebuilt u kind target) (sym u)
            (subst (λ k. Rebuilt (codes "HTTP@" ++ target) k target) (sym k)
              (Rebuilt-http target clean))
      | inr (u, k) ↦
          subst (λ u. Rebuilt u kind target) (sym u)
            (subst (λ k. Rebuilt (codes "GRPC@" ++ target) k target) (sym k)
              (Rebuilt-grpc target clean))
    ]
