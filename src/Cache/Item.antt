-- ===== src/Cache/Item.antt =====
-- core/cat/cache/cache_item.py
use cat_forked.Prelude.{
  ℕ, zero, suc, ◌+◌, String, Bool, false, Option, none, some, ltb, if◌then◌else◌, ℤ, pos, negsuc,
}

-- `created_at` is `time.time()` at the construction.
pub record CacheItem (V : Type 0) : Type 0 where
  pub key : String
  pub value : V
  pub ttl : Option ℤ
  pub created_at : ℕ

-- `ttl == -1 or ttl is None` never expires; else `created_at + ttl < now`, the negative part of
-- the sum written on the other side.
abbrev pub outlived : ℕ → ℕ → Option ℤ → Bool
outlived created now none = false
outlived created now (some (pos n)) = ltb (created + n) now
outlived created now (some (negsuc zero)) = false
outlived created now (some (negsuc (suc n))) = ltb created (now + (n + 2))

unfoldable pub is_expired : {V : Type 0} → ℕ → CacheItem V → Bool
is_expired now c = outlived c.created_at now c.ttl

-- What a read at time `now` may return of a stored item.
abbrev pub live : {V : Type 0} → ℕ → Option (CacheItem V) → Option (CacheItem V)
live now none = none
live now (some c) = if is_expired now c then none else some c
