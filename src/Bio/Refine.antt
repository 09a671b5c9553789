-- ===== src/Bio/Refine.antt =====
-- The buffer cache does what the layers above it take it to do.
use os_exp.Base.{
  ℕ, ◌+◌, ◌-◌, ◌<◌, ◌≡◌, refl, sym, ap, ◌∙◌, subst, inl, inr, false, not, Option, some, none, arith,
  ◌==◌, Bool-cases, update, update_self, update_ne, returned,
}
use os_exp.Block.{Block}
use os_exp.Storage.{Store, Run, done, M, pure, ◌>>=◌, ◌>>◌, set_data}
use os_exp.Storage
use os_exp.Bio.{Bcache, got, sleeps, lock_buf, filled, bread, bwrite, brelse, bpin, bunpin, modify}
use os_exp.Bio.Valid.{rootdev, IsCache}
use os_exp.Bio.View.{Has}
use os_exp.Bio.Read.{Bread, bread_lem}
use os_exp.Bio.Wake.{Wakes, lock_buf-Wakes}
use os_exp.Bio.Release.{Clean, Released, brelse-Released}
use os_exp.Bio.Looks.{InUse, Same-Looks, modify-Looks, written, written-IsCache, written-Looks}
use os_exp.Bio.Shows.{Shows, one_more, counted_now, one_changed, recount}

-- The calls, as their callers make them. A caller that waits for the lock of its buffer goes on when it
-- has been given back, and then reads the block.
pub data Step (held : ℕ → ℕ) (a : Store) (s t : Bcache) : Type 0 where
  reads : (n b : ℕ) → bread rootdev n s ≡ got b t → Step held a s t
  waits : (n b : ℕ) → bread rootdev n s ≡ sleeps b t → Step held a s t
  wakes : (n b : ℕ) → Has s n b → 0 < held n → filled (lock_buf b s) ≡ got b t → Step held a s t
  modifies : (b : ℕ) (x : Block) → InUse s b → modify b x s ≡ t → Step held a s t
  writes : (b : ℕ) → InUse s b → bwrite b s ≡ returned t → Step held a s t
  releases :
      (b : ℕ)
      → InUse s b
      → 0 < held (s.buf b).blockno
      → Clean s b
      → brelse b s ≡ returned t
      → Step held a s t
  pins : (b : ℕ) → InUse s b → bpin b s ≡ t → Step held a s t
  unpins :
      (b : ℕ)
      → InUse s b
      → 0 < held (s.buf b).blockno
      → 0 < a.pins (s.buf b).blockno
      → bunpin b s ≡ t
      → Step held a s t

module _ {held : ℕ → ℕ} {a : Store} {s t : Bcache} where
  -- The references of the callers after a step.
  abbrev pub held_after : Step held a s t → ℕ → ℕ
  held_after (reads n b e) = update held n (held n + 1)
  held_after (waits n b e) = update held n (held n + 1)
  held_after (releases b u m c e) = update held (s.buf b).blockno (held (s.buf b).blockno - 1)
  held_after _ = held

  -- The same call on the store, with the contents that it reads. Releasing leaves the store alone.
  abbrev pub abstract_step : Step held a s t → M (Option Block)
  abstract_step (reads n b e) = Storage.bread n >>= λ x. pure (some x)
  abstract_step (waits n b e) = pure none
  abstract_step (wakes n b m h e) = Storage.bread n >>= λ x. pure (some x)
  abstract_step (modifies b x u e) = set_data (s.buf b).blockno x >> pure none
  abstract_step (writes b u e) = Storage.bwrite (s.buf b).blockno >> pure none
  abstract_step (releases b u m c e) = pure none
  abstract_step (pins b u e) = Storage.bpin (s.buf b).blockno >> pure none
  abstract_step (unpins b u m p e) = Storage.bunpin (s.buf b).blockno >> pure none

  -- What the caller finds in the buffer that it gets.
  abbrev pub read_by : Step held a s t → Option Block
  read_by (reads n b e) = some (t.buf b).bytes
  read_by (wakes n b m h e) = some (t.buf b).bytes
  read_by _ = none

-- What a step comes to on the store.
abbrev pub Follows : Bcache → (ℕ → ℕ) → Option Block → Run (Option Block) → Type 0
Follows t held x r = (a : Store) × (r ≡ done x a) × Shows t held a

bwrite-Refines :
    {held : ℕ → ℕ} {s t : Bcache} (a : Store) (b : ℕ)
    → InUse s b
    → bwrite b s ≡ returned t
    → IsCache s
    → Shows s held a
    → 0 < a.power
    → IsCache t × Follows t held none ((Storage.bwrite (s.buf b).blockno >> pure none) a)
unfolding bwrite
bwrite-Refines {held} {s} {t} a b u e w sh on = elim (Bool-cases (not (s.buf b).locked)) [
  | inl y ↦ cc (rw y at e)
  | inr l ↦
      let same : written s b ≡ t = cc (rw l at e) in
      let powered : (a.power == 0) ≡ false = ground arith in
      let after = record a {
        disk = update a.disk (s.buf b).blockno (a.cache (s.buf b).blockno);
        power = a.power - 1;
      } in
      let show : Shows (written s b) held after = record {
        looks = written-Looks s a b (a.power - 1) w u sh.looks;
        counted = record { cached = sh.counted.cached; uncached = sh.counted.uncached };
      } in
      (
        subst IsCache same (written-IsCache s b w u),
        (after, rw powered refl, subst (λ q. Shows q held after) same show),
      )
]

brelse-Refines :
    {held : ℕ → ℕ} {s t : Bcache} (a : Store) (b : ℕ)
    → InUse s b
    → 0 < held (s.buf b).blockno
    → Clean s b
    → brelse b s ≡ returned t
    → IsCache s
    → Shows s held a
    → IsCache t
      × Follows t (update held (s.buf b).blockno (held (s.buf b).blockno - 1)) none (pure none a)
unfolding brelse
brelse-Refines {held} {s} {t} a b u m clean e w sh = elim (Bool-cases (s.buf b).locked) [
  | inl l ↦
      let (t', e', r) = brelse-Released s b w u.0 l clean in
      let t'_t : t' ≡ t = cc (e', e) in
      let k = subst (Released s b) t'_t r in
      let n = (s.buf b).blockno in
      (
        k.same.valid,
        (
          a,
          refl,
          record {
            looks = Same-Looks s t a k.same sh.looks;
            counted =
                one_changed s held a b w u.0 u.1 sh (t.buf b)
                  (λ j. update held n (held n - 1) j + a.pins j) k.kept.0 k.kept.1
                  (omega (
                    arith,
                    k.counted,
                    counted_now s held a b w u.0 u.1 sh,
                    m,
                    update_self held n (held n - 1),
                  ))
                  (λ j ne. ap (λ c. c + a.pins j) (update_ne held n (held n - 1) j ne)) t refl
                  k.others;
          },
        ),
      )
  | inr n ↦ cc (rw n at e)
]

-- In a well-formed cache that shows the store, every step of a caller is the same step of the store
-- while there is power: a caller that gets a buffer finds in it the contents that the store reads. It
-- leaves a well-formed cache that shows the store after it, with its pins, where the caller has the
-- reference that it took and not the one that it gave back.
pub Step-Refines :
    {held : ℕ → ℕ} {s t : Bcache} (a : Store) (st : Step held a s t)
    → IsCache s
    → Shows s held a
    → 0 < a.power
    → IsCache t × Follows t (held_after st) (read_by st) (abstract_step st a)
unfolding bpin bunpin
Step-Refines {held} {s} {t} a (reads n b e) w sh on =
    let (k, _, _, bytes) = subst (Bread s n) e (bread_lem s n w) in
    (
      k.same.valid,
      (
        a,
        ap (λ x. done (some x) a) (sh.looks.current n ∙ sym bytes),
        one_more s t held a n b w sh k,
      ),
    )
Step-Refines {held} {s} {t} a (waits n b e) w sh on =
    let (k, _) = subst (Bread s n) e (bread_lem s n w) in
    (k.same.valid, (a, refl, one_more s t held a n b w sh k))
Step-Refines {held} {s} {t} a (wakes n b m h e) w sh on =
    let free : 0 < (s.buf b).refcnt = omega (arith, sh.counted.cached b n m, h) in
    let k = subst (Wakes s n b) e (lock_buf-Wakes s n b w m free) in
    (
      k.same.valid,
      (
        a,
        ap (λ x. done (some x) a) (sh.looks.current n ∙ sym k.contents),
        record {
          looks = Same-Looks s t a k.same sh.looks;
          counted =
              one_changed s held a b w m.0 m.1 sh (t.buf b) (λ j. held j + a.pins j)
                (k.has.1 ∙ sym m.1) (k.has.2 ∙ sym m.2)
                (k.counted ∙ counted_now s held a b w m.0 m.1 sh) (λ _ _. refl) t refl k.others;
        },
      ),
    )
Step-Refines {held} {s} {t} a (modifies b x u e) w sh on =
    let x' = record (s.buf b) { bytes = x } in
    let (v, look) = modify-Looks s a b x w u sh.looks in
    let after = record a { cache = update a.cache (s.buf b).blockno x } in
    let show : Shows (modify b x s) held after = record {
      looks = look;
      counted =
          one_changed s held a b w u.0 u.1 sh x' (λ j. held j + a.pins j) refl refl
            (counted_now s held a b w u.0 u.1 sh) (λ _ _. refl) (modify b x s)
            (update_self s.buf b x') (λ i ne. update_ne s.buf b x' i ne);
    } in
    (subst IsCache e v, (after, refl, subst (λ q. Shows q held after) e show))
Step-Refines a (writes b u e) w sh on = bwrite-Refines a b u e w sh on
Step-Refines a (releases b u m clean e) w sh on = brelse-Refines a b u m clean e w sh
Step-Refines {held} {s} {t} a (pins b u e) w sh on =
    let n = (s.buf b).blockno in
    let now = counted_now s held a b w u.0 u.1 sh in
    let p' = update a.pins n (a.pins n + 1) in
    let (v, show) =
      recount s held a b w u.0 u.1 sh ((s.buf b).refcnt + 1) held p' (omega (arith, now))
        (omega (arith, now, update_self a.pins n (a.pins n + 1)))
        (λ j ne. ap (λ c. held j + c) (update_ne a.pins n (a.pins n + 1) j ne)) in
    let after = record a { pins = p' } in
    (subst IsCache e v, (after, refl, subst (λ q. Shows q held after) e show))
Step-Refines {held} {s} {t} a (unpins b u m p e) w sh on =
    let n = (s.buf b).blockno in
    let now = counted_now s held a b w u.0 u.1 sh in
    let p' = update a.pins n (a.pins n - 1) in
    let (v, show) =
      recount s held a b w u.0 u.1 sh ((s.buf b).refcnt - 1) held p' (omega (arith, now, m, p))
        (omega (arith, now, p, update_self a.pins n (a.pins n - 1)))
        (λ j ne. ap (λ c. held j + c) (update_ne a.pins n (a.pins n - 1) j ne)) in
    let after = record a { pins = p' } in
    (subst IsCache e v, (after, refl, subst (λ q. Shows q held after) e show))
