-- ===== src/Dns/Results.antt =====
-- ext/asyncengine/ae_dns.c: the addresses that a lookup hands to its proc.
use async_engine.Dns.{AddrInfo, af_inet, af_inet6, af_other, result_ips, Family}
use async_engine.Base.{
  All, List, Option, [], is_some, none, refl, some, suc, true, zero, ℕ, ◌∷◌, ◌≡◌, Option-cases, ap,
  inl, inr,
}
use async_engine.World.Monad.{Env}

-- The text of one result: none for an empty one and for one that is neither IPv4 nor IPv6.
pub result_name : Env → AddrInfo → Option (List ℕ)
result_name env info = elim info.ai_addrlen [
  | zero ↦ none
  | suc n ↦ elim info.sa_family [
    | af_inet ↦ env.inet_ntop4 info.sin_addr
    | af_inet6 ↦ env.inet_ntop6 info.sin_addr
    | af_other ↦ none
  ]
]

pub names : Env → List AddrInfo → List (List ℕ)
unfolding result_name
names env [] = []
names env (info ∷ rest) = elim (result_name env info) [
  | none ↦ names env rest
  | some ip ↦ ip ∷ names env rest
]

-- libuv can print every address of the list that is IPv4 or IPv6 and not empty.
unfoldable pub Printable : Env → AddrInfo → Type 0
Printable env info = elim info.ai_addrlen [
  | zero ↦ Unit
  | suc n ↦ elim info.sa_family [
    | af_inet ↦ is_some (env.inet_ntop4 info.sin_addr) ≡ true
    | af_inet6 ↦ is_some (env.inet_ntop6 info.sin_addr) ≡ true
    | af_other ↦ Unit
  ]
]

abbrev result : ℕ → Family → List ℕ → AddrInfo
result n family a = record { ai_addrlen = n; sa_family = family; sin_addr = a }

module _ (env : Env) (rest : List AddrInfo)
    (ih : (ip : List ℕ) → result_ips env ip rest ≡ names env rest) (ip a : List ℕ) where
  next_result :
      (n : ℕ) (family : Family)
      → Printable env (result n family a)
      → result_ips env ip (result n family a ∷ rest) ≡ names env (result n family a ∷ rest)
  unfolding result_ips names Printable
  next_result zero family h = ih ip
  next_result (suc n) af_inet h = elim (Option-cases (env.inet_ntop4 a)) [
    | inl e ↦ cc
    | inr (t, e) ↦ rw e (ap (λ r. t ∷ r) (ih t))
  ]
  next_result (suc n) af_inet6 h = elim (Option-cases (env.inet_ntop6 a)) [
    | inl e ↦ cc
    | inr (t, e) ↦ rw e (ap (λ r. t ∷ r) (ih t))
  ]
  next_result (suc n) af_other h = ih ip

-- If libuv can print each IPv4 and IPv6 address of a list of results, the texts that the proc is given
-- are those of the results that have one, in their order, and nothing of what the buffer held before.
pub result_ips-eq-names :
    (env : Env) (ip : List ℕ) (infos : List AddrInfo)
    → All (Printable env) infos
    → result_ips env ip infos ≡ names env infos
unfolding result_ips names
result_ips-eq-names env ip [] h = refl
result_ips-eq-names env ip (info ∷ rest) h =
    next_result env rest (λ ip. result_ips-eq-names env ip rest h.1) ip info.sin_addr
      info.ai_addrlen info.sa_family h.0
