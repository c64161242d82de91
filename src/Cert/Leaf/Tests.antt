-- ===== src/Cert/Leaf/Tests.antt =====
-- Certificates that are the templates themselves, signed without fail.
use i_filter_imitation.Common.{
  ℕ, ◌+◌, List, [], ◌∷◌, length, true, none, some, codes, text_eq, All, ◌≡◌, refl, arith,
}
use i_filter_imitation.Cert.Leaf.{
  Template, Cache, Inputs, load, delete, get_cert, ask_redis, get_new, generate, template,
  save_to_redis, set_redis, store_mem,
}
use i_filter_imitation.Cert.Leaf.Invariant.{
  Op, op_get, op_evict, op_forget, step, run, Lawful, OpLawful, Sound, Served, get_cert-Served,
}
use i_filter_imitation.Cert.Leaf.Count.{Counted, run-Counted}
use i_filter_imitation.Cert.Leaf.Race.{store_all, store_all-count}

abbrev no_certs : Cache Template
no_certs = record { mem = []; count = 0; redis = λ _. none }

abbrev at_time : ℕ → Inputs Template
at_time n = record { now = n; gets = true; sets = true; deletes = true; sign = λ t. some t }

abbrev ops : List (Op Template)
ops =
    op_get (at_time 5000) (codes "a.com")
    ∷ op_get (at_time 6000) []
    ∷ op_evict 40000000
    ∷ op_forget (codes "a.com")
    ∷ []

second_call :
    (get_cert
      (at_time 6000)
      (codes "a.com")
      (step (op_get (at_time 5000) (codes "a.com")) no_certs)).0
    ≡ some (template (codes "a.com") 5000)
unfolding get_cert load ask_redis get_new generate template save_to_redis set_redis store_mem delete
    step text_eq
second_call = refl

abbrev itself : Template → Template
itself t = t

at_time-Lawful : (n : ℕ) → Lawful itself (at_time n)
at_time-Lawful n t cert h = ground (arith, h)

ops-Lawful : All (OpLawful itself) ops
ops-Lawful = (at_time-Lawful 5000, (at_time-Lawful 6000, (tt, (tt, tt))))

no_certs-Sound : Sound itself no_certs
no_certs-Sound = record { mem = tt; redis = λ _. tt }

get_cert-Served_example :
    Served itself
      (at_time 7000)
      (codes "b.com")
      (get_cert (at_time 7000) (codes "b.com") (run ops no_certs)).0
get_cert-Served_example =
    get_cert-Served itself ops (at_time 7000) (codes "b.com") no_certs ops-Lawful
      (at_time-Lawful 7000) no_certs-Sound

no_certs-Counted : Counted no_certs
no_certs-Counted = record { counted = refl; bounded = omega arith; distinct = tt }

run-Counted_example : Counted (run ops no_certs)
run-Counted_example = run-Counted ops no_certs no_certs-Counted

abbrev made : Template × ℕ
made = (template (codes "a.com") 5000, 31541000)

store_all-count_example :
    let t = store_all (made ∷ made ∷ made ∷ []) (codes "a.com") no_certs in
    (t.count ≡ length (made ∷ made ∷ []) + 1) × (length t.mem ≡ 1)
store_all-count_example =
    store_all-count made (made ∷ made ∷ []) (codes "a.com") no_certs refl refl (omega arith)
