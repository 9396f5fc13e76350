-- ===== src/Grpc/Urls/Equiv.antt =====
-- The request URLs that SplitRequestURL of delayquene/types.go accepts, and the deliveries that
-- parseRequestURL of grpc.go reads from them.
use gua.Base.{
  ◌≡◌, ◌∙◌, refl, sym, ap, Bool, true, false, ◌&&◌, [], ◌∷◌, Text, Result, ok, err, arith,
}
use mathlib.Core.Bool.{Bool-set}
use mathlib.Core.Equiv.{IsEquiv, iso_to_equiv}
use mathlib.Core.HLevel.{Σ_prop_path}
use gua.Queue.Types.{Error, is_target, split_request_url}
use gua.Grpc.{
  DeliveryType, delivery_http, delivery_grpc, delivery_other, build_request_url, parse_request_url,
}
use gua.Grpc.Urls.{parse-build, split-build, build-parse}

abbrev pub is_ok : {A : Type 0} → Result Error A → Bool
is_ok (ok a) = true
is_ok (err e) = false

-- A URL that the queue accepts.
abbrev pub Accepted : Type 0
Accepted = (url : Text) × (is_ok (split_request_url url) ≡ true)

abbrev pub is_known : DeliveryType → Bool
is_known delivery_other = false
is_known _ = true

-- Over HTTP or gRPC, to a target that is not empty and has no blanks.
abbrev pub is_clean : DeliveryType × Text → Bool
is_clean (d, target) = is_known d && is_target target

abbrev pub Delivery : Type 0
Delivery = (to : DeliveryType × Text) × (is_clean to ≡ true)

accepted-parts :
    (url : Text)
    → is_ok (split_request_url url) ≡ true
    → (kind : Text) × (target : Text) × (split_request_url url ≡ ok (kind, target))
accepted-parts url h = by_result (split_request_url url) h
  where
    by_result :
        (r : Result Error (Text × Text))
        → is_ok r ≡ true
        → (kind : Text) × (target : Text) × (r ≡ ok (kind, target))
    by_result (ok (kind, target)) h = (kind, target, refl)
    by_result (err e) h = cc

-- What is built is known, so it is accepted exactly if its target is clean.
built-is_clean :
    (d : DeliveryType) (target url : Text)
    → build_request_url d target ≡ ok url
    → is_ok (split_request_url url) ≡ is_clean (d, target)
unfolding build_request_url
built-is_clean delivery_http target url h = ground (arith, split-build delivery_http target h)
built-is_clean delivery_grpc target url h = ground (arith, split-build delivery_grpc target h)
built-is_clean delivery_other target url h = cc

built_url : Result Error Text → Text
built_url (ok url) = url
built_url (err e) = []

clean-built :
    (to : DeliveryType × Text)
    → is_clean to ≡ true
    → build_request_url to.0 to.1 ≡ ok (built_url (build_request_url to.0 to.1))
unfolding build_request_url is_target built_url
clean-built (delivery_http, []) h = cc
clean-built (delivery_http, c ∷ target) h = refl
clean-built (delivery_grpc, []) h = cc
clean-built (delivery_grpc, c ∷ target) h = refl
clean-built (delivery_other, target) h = cc

pub parsed-is_clean :
    (url : Text) → is_ok (split_request_url url) ≡ true → is_clean (parse_request_url url) ≡ true
parsed-is_clean url h =
    let (kind, target, split) = accepted-parts url h in
    let built = (build-parse url split).0 in
    sym (built-is_clean (parse_request_url url).0 (parse_request_url url).1 url built) ∙ h

-- What `parseRequestURL` reads from a URL that the queue accepts.
abbrev pub parsed : Accepted → Delivery
parsed (url, accepted) = (parse_request_url url, parsed-is_clean url accepted)

rebuilt : Delivery → Accepted
unfolding built_url
rebuilt (to, clean) =
    let url = built_url (build_request_url to.0 to.1) in
    (url, built-is_clean to.0 to.1 url (clean-built to clean) ∙ clean)

parsed-rebuilt : (to : Delivery) → parsed (rebuilt to) ≡ to
unfolding rebuilt
parsed-rebuilt (to, clean) =
    Σ_prop_path (λ r. Bool-set (is_clean r) true) (parse-build to.0 to.1 (clean-built to clean))

rebuilt-parsed : (u : Accepted) → rebuilt (parsed u) ≡ u
unfolding rebuilt built_url
rebuilt-parsed (url, accepted) =
    let (kind, target, split) = accepted-parts url accepted in
    Σ_prop_path (λ url. Bool-set (is_ok (split_request_url url)) true)
      (ap built_url (build-parse url split).0)

-- Reading the URLs that the queue accepts is an equivalence between them and the deliveries over HTTP or
-- gRPC to a target without blanks: each such delivery has exactly one URL that is accepted.
pub parsed-IsEquiv : IsEquiv parsed
parsed-IsEquiv =
    (iso_to_equiv
      (record { fun = parsed; inv = rebuilt; rinv = parsed-rebuilt; linv = rebuilt-parsed })).1
