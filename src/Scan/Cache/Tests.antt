-- ===== src/Scan/Cache/Tests.antt =====
-- The theorems on the cache at a cache with room for two entries.
use i_filter_imitation.Common.{
  [], ◌∷◌, true, none, some, if◌then◌else◌, Text, codes, text_eq, ◌≡◌, refl, arith,
}
use i_filter_imitation.Scan.Status.{clean, infected}
use i_filter_imitation.Scan.Cache.{
  CacheEntry, Shelf, ResultCache, missing, payload, find, empty_shelf, new_result_cache, store_mem,
  get, get_by_url, store, hex,
}
use i_filter_imitation.Scan.Cache.Invariant.{
  IsSound, empty_shelf-IsSound, store_mem-IsSound, getting, evicting, run, run-IsSound,
}
use i_filter_imitation.Scan.Cache.Lookup.{url_entry, get_by_url-store}

abbrev identity : Text → Text
identity s = s

abbrev small : ResultCache
small = new_result_cache 60 100 2 true

abbrev url : Text
url = codes "http://a/b"

abbrev entry : CacheEntry
entry = record { status = infected; threat_name = codes "Eicar"; expires_at = 50 }

abbrev shelf : Shelf
shelf = store_mem 2 url entry empty_shelf

shelf-IsSound : IsSound 2 shelf
shelf-IsSound = store_mem-IsSound 2 url entry empty_shelf (empty_shelf-IsSound 2)

run-IsSound_example :
    IsSound 2 (run 2 (getting 60 10 (payload clean []) url ∷ evicting 90 ∷ []) empty_shelf)
run-IsSound_example =
    run-IsSound 2 (getting 60 10 (payload clean []) url ∷ evicting 90 ∷ []) empty_shelf
      (empty_shelf-IsSound 2)

get_by_url-store_example :
    let c' = (store identity 10 url (codes "h") infected (codes "Eicar") small).0 in
    ((get_by_url identity 69 missing url c').0 ≡ some (infected, codes "Eicar"))
    × (find (hex (identity (codes "http://c"))) c'.by_url.entries ≡ (
        if text_eq (hex (identity url)) (hex (identity (codes "http://c")))
        then some (url_entry small 10 infected (codes "Eicar"))
        else find (hex (identity (codes "http://c"))) small.by_url.entries))
unfolding new_result_cache find
get_by_url-store_example =
    get_by_url-store identity small url (codes "http://c") (codes "h") (codes "Eicar") infected 10
      69 missing refl (omega arith) refl (omega arith)

expired : (get 2 60 70 missing url shelf).0 ≡ none
unfolding get store_mem empty_shelf
expired = refl
