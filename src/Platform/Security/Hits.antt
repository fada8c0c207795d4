-- ===== src/Platform/Security/Hits.antt =====
-- What one count of a key does in Redis (INCR, and EXPIRE on the first count).
use claude_cloud_ops_tool.Base.{
  ==_refl, Bool-cases, Option, ap, arith, false, inl, inr, nat_eq, none, option_eq, refl, some,
  string_eq, true, ℕ, ◌*◌, ◌+◌, ◌<◌, ◌==◌, ◌∙◌, ◌≡◌,
}
use claude_cloud_ops_tool.Platform.Redis.{
  Key, Redis, IsRedis, live, Entry, same_key, counted, throttle, revoke, rate,
}
use claude_cloud_ops_tool.Platform.Security.{hit}

pub same_key_refl : (k : Key) → same_key k k ≡ true
same_key_refl (throttle a) = ==_refl a
same_key_refl (revoke a) = ==_refl a
same_key_refl (rate a) = ==_refl a

module _ {S : Type 0} (r : Redis S) (redis : IsRedis r) (seconds now : ℕ) (k : Key) (s : S) where
  hit_value : (hit r seconds now k s).0 ≡ (r.incr now k s).0
  unfolding hit
  hit_value = refl

  stored-incr_self : r.stored (r.incr now k s).1 k ≡ some (counted (live now (r.stored s k)))
  stored-incr_self = rw (redis.stored-incr now k k s, same_key_refl k) refl

  -- The first count of a window starts its time.
  pub hit_first :
      live now (r.stored s k) ≡ none
      → ((hit r seconds now k s).0 ≡ 1)
        × (r.stored (hit r seconds now k s).1 k
            ≡ some (record { value = 1; expires_at = some (now + 1000 * seconds) }))
  unfolding hit
  hit_first fresh =
      let one : (r.incr now k s).0 ≡ 1 =
        redis.incr-count now k s ∙ ap (λ (o : Option Entry). (counted o).value) fresh in
      let stored : r.stored (r.incr now k s).1 k ≡ some (record { value = 1; expires_at = none }) =
        stored-incr_self ∙ ap (λ (o : Option Entry). some (counted o)) fresh in
      (
        one,
        rw one (
            rw (redis.stored-expire now k k seconds (r.incr now k s).1, same_key_refl k, stored)
              refl),
      )

  -- A later one leaves it as it is.
  pub hit_again :
      (e : Entry)
      → live now (r.stored s k) ≡ some e
      → 0 < e.value
      → ((hit r seconds now k s).0 ≡ e.value + 1)
        × (r.stored (hit r seconds now k s).1 k
            ≡ some (record { value = e.value + 1; expires_at = e.expires_at }))
  unfolding hit
  hit_again e seen positive =
      let count : (r.incr now k s).0 ≡ e.value + 1 =
        redis.incr-count now k s ∙ ap (λ (o : Option Entry). (counted o).value) seen in
      let later : ((r.incr now k s).0 == 1) ≡ false = ground arith in
      (count, rw later (stored-incr_self ∙ ap (λ (o : Option Entry). some (counted o)) seen))

  pub hit_other :
      (j : Key) → same_key j k ≡ false → r.stored (hit r seconds now k s).1 j ≡ r.stored s j
  unfolding hit
  hit_other j other =
      let counted : r.stored (r.incr now k s).1 j ≡ r.stored s j =
        rw (redis.stored-incr now k j s, other) refl in
      elim (Bool-cases ((r.incr now k s).0 == 1)) [
        | inl t ↦ rw t (rw (redis.stored-expire now k j seconds (r.incr now k s).1, other) counted)
        | inr t ↦ rw t counted
      ]
