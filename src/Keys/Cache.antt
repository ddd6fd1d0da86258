-- ===== src/Keys/Cache.antt =====
-- For how long an answer of the control plane holds.
use openseafeed.Base.{ℕ, ◌-◌, ◌<◌, ◌≡◌, refl, ap, Bytes, lt→ltb, Option, none, some}
use openseafeed.Base.Map.{Map, get, insert, get-insert_self, text_eq}
use openseafeed.Keys.{
  Kind, KeyInfo, ValidateResponse, Validator, http, kind_of, fetch, cached, ask, validate,
}

-- A validator that asks the control plane.
abbrev pub asking : Map Bytes (Option KeyInfo × ℕ) → ℕ → Validator
asking cache ttl = record { mode = http cache; cache_ttl = ttl }

ask_first :
    (answer : Option ValidateResponse) (now written : ℕ) (v : Validator)
    (cache : Map Bytes (Option KeyInfo × ℕ)) (key : Bytes)
    → get key cache ≡ none
    → ask answer now written v cache key
      ≡ (record v { mode = http (insert key (fetch answer key, written) cache) }, fetch answer key)
unfolding ask cached
ask_first answer now written v cache key absent = rw (ask, absent) refl

ask_again :
    (answer : Option ValidateResponse) (again later written : ℕ) (v : Validator)
    (cache : Map Bytes (Option KeyInfo × ℕ)) (key : Bytes) (info : Option KeyInfo)
    → get key cache ≡ some (info, written)
    → again - written < v.cache_ttl
    → ask answer again later v cache key ≡ (v, info)
unfolding ask cached
ask_again answer again later written v cache key info there young =
    let fresh : cached v.cache_ttl again (get key cache) ≡ some info =
      rw (there, cached, lt→ltb (again - written) v.cache_ttl young) refl in
    rw (ask, fresh) refl

-- In the mode that asks the control plane, an answer for a well-formed key that is not in the cache
-- holds until `cache_ttl` after its write, whatever the control plane would answer by then: the second
-- call gives the same answer, and the cache stays as the first left it.
pub validate-cached :
    (answer next : Option ValidateResponse) (now written again later ttl : ℕ)
    (cache : Map Bytes (Option KeyInfo × ℕ)) (kind : Kind) (key : Bytes)
    → kind_of key ≡ some kind
    → get key cache ≡ none
    → again - written < ttl
    → ((validate answer now written (asking cache ttl) key).1 ≡ fetch answer key)
      × (validate next again later (validate answer now written (asking cache ttl) key).0 key
          ≡ validate answer now written (asking cache ttl) key)
unfolding validate
validate-cached answer next now written again later ttl cache kind key well absent young =
    let info = fetch answer key in
    let stored = insert key (info, written) cache in
    let first : validate answer now written (asking cache ttl) key ≡ (asking stored ttl, info) =
      rw (validate, well) (ask_first answer now written (asking cache ttl) cache key absent) in
    let second : validate next again later (asking stored ttl) key ≡ (asking stored ttl, info) =
      rw (validate, well)
        (ask_again next again later written (asking stored ttl) stored key info
          (get-insert_self key (info, written) cache) young) in
    (ap (λ r. r.1) first, rw first second)
