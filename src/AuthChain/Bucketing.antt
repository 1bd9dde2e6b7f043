-- ===== src/AuthChain/Bucketing.antt =====
-- The buckets hold the starting events with their short ids (src/service/rooms/auth_chain/mod.rs).
use mathlib.Core.Path.{subst}
use matrix_server.Base.{
  ℕ, zero, suc, ◌+◌, ◌%◌, ◌<◌, ◌≤◌, ◌≡◌, inl, inr, refl, ◌∙◌, Bool, true, false, Option, List, [],
  ◌∷◌, arith, length, ite, if◌then◌else◌, ◌||◌, ◌==◌, ltb,
}
use matrix_server.Base.Bytes.{dec_bytes, u64_mod}
use matrix_server.Base.Order.{le_bytes}
use matrix_server.Base.HashSet.{contains}
use matrix_server.Base.Effect.{Result, ok, Result-cases}
use matrix_server.Storage.{KvTree}
use matrix_server.Lru.{LruCache}
use matrix_server.Short.{EventId, ShortDb, get_or_create_shorteventid}
use matrix_server.Short.Events.{IsConsistent, get_or_create_shorteventid_lem}
use matrix_server.AuthChain.{Pdu}
use matrix_server.AuthChain.Pushing.{Kept, IsShort}
use matrix_server.AuthChain.Caching.{ChainDb}
use matrix_server.AuthChain.Collecting.{Bucket, bucket_insert, insert_at, num_buckets, fill_buckets}

-- The event is in the bucket.
abbrev pub in_bucket : Bucket → EventId → Bool
in_bucket [] e = false
in_bucket ((m, j) ∷ bucket) e = ite (dec_bytes j e) true (in_bucket bucket e)

abbrev pub in_buckets : List Bucket → EventId → Bool
in_buckets [] e = false
in_buckets (bucket ∷ buckets) e = in_bucket bucket e || in_buckets buckets e

-- How many events the buckets hold.
abbrev pub total : List Bucket → ℕ
total [] = 0
total (bucket ∷ buckets) = length bucket + total buckets

if_holds : {A : Type 0} (P : A → Type 0) {x y : A} (b : Bool) → P x → P y → P (if b then x else y)
if_holds P true h k = h
if_holds P false h k = k

ite_holds : {A D : Type 0} (P : A → Type 0) {x y : A} (d : Dec D) → P x → P y → P (ite d x y)
ite_holds P (yes p) h k = h
ite_holds P (no p) h k = k

in_bucket-bucket_insert :
    (m : ℕ) (id : EventId) (bucket : Bucket) (e : EventId)
    → in_bucket (bucket_insert m id bucket) e ≡ ite (dec_bytes id e) true (in_bucket bucket e)
unfolding bucket_insert
in_bucket-bucket_insert m id [] e = ground arith
in_bucket-bucket_insert m id ((w, j) ∷ bucket) e =
    ground (arith, in_bucket-bucket_insert m id bucket e)

length-bucket_insert :
    (m : ℕ) (id : EventId) (bucket : Bucket)
    → length (bucket_insert m id bucket) ≤ suc (length bucket)
unfolding bucket_insert
length-bucket_insert m id [] = omega arith
length-bucket_insert m id ((w, j) ∷ bucket) = ground (arith, length-bucket_insert m id bucket)

-- Insertion at an index in range.
insert_at_lem :
    (i m : ℕ) (id : EventId) (buckets : List Bucket)
    → i < length buckets
    → (buckets' : List Bucket) × (insert_at i m id buckets ≡ ok buckets')
      × (length buckets' ≡ length buckets)
      × (total buckets' ≤ suc (total buckets))
      × ((e : EventId) → in_buckets buckets' e ≡ ite (dec_bytes id e) true (in_buckets buckets e))
unfolding insert_at
insert_at_lem i m id [] lt = absurd (omega arith)
insert_at_lem zero m id (bucket ∷ buckets) lt = (
  bucket_insert m id bucket ∷ buckets,
  refl,
  refl,
  omega (arith, length-bucket_insert m id bucket),
  λ e. ground (arith, in_bucket-bucket_insert m id bucket e),
)
insert_at_lem (suc i) m id (bucket ∷ buckets) lt =
    let (rest, run, len, tot, held) = insert_at_lem i m id buckets (omega arith) in
    (
      bucket ∷ rest,
      rw run refl,
      omega (arith, len),
      omega (arith, tot),
      λ e. ground (arith, held e),
    )

pub contains-cons :
    (id : EventId) (rest : List EventId) (e : EventId)
    → contains dec_bytes (id ∷ rest) e ≡ ite (dec_bytes id e) true (contains dec_bytes rest e)
unfolding contains
contains-cons id rest e = refl

module _ {T : Type 0} {C : Type 0 → Type 0 → Type 0} (kv : KvTree T)
    (lru : (K V : Type 0) → LruCache K V (C K V)) (get_pdu : EventId → Result (Option Pdu)) where
  abbrev Db : Type 0
  Db = ChainDb T C

  -- Each entry is an event with its short id.
  abbrev pub AreEntries : ShortDb T C → Bucket → Type 0
  AreEntries s [] = Unit {0}
  AreEntries s ((m, e) ∷ bucket) = IsShort kv lru s e m × AreEntries s bucket

  abbrev pub AreFilled : ShortDb T C → List Bucket → Type 0
  AreFilled s [] = Unit {0}
  AreFilled s (bucket ∷ buckets) = AreEntries s bucket × AreFilled s buckets

  pub later-AreEntries :
      (s s' : ShortDb T C) (bucket : Bucket)
      → Kept kv lru s s'
      → AreEntries s bucket
      → AreEntries s' bucket
  later-AreEntries s s' [] k h = tt
  later-AreEntries s s' ((m, e) ∷ bucket) k h =
      ((k e _ h.0.0, h.0.1), later-AreEntries s s' bucket k h.1)

  pub later-AreFilled :
      (s s' : ShortDb T C) (buckets : List Bucket)
      → Kept kv lru s s'
      → AreFilled s buckets
      → AreFilled s' buckets
  later-AreFilled s s' [] k h = tt
  later-AreFilled s s' (bucket ∷ buckets) k h =
      (later-AreEntries s s' bucket k h.0, later-AreFilled s s' buckets k h.1)

  bucket_insert-AreEntries :
      (s : ShortDb T C) (m : ℕ) (id : EventId) (bucket : Bucket)
      → IsShort kv lru s id m
      → AreEntries s bucket
      → AreEntries s (bucket_insert m id bucket)
  unfolding bucket_insert
  bucket_insert-AreEntries s m id [] short h = (short, tt)
  bucket_insert-AreEntries s m id ((w, j) ∷ bucket) short h =
      let first : AreEntries s ((m, id) ∷ (w, j) ∷ bucket) = (short, h) in
      let later : AreEntries s ((w, j) ∷ bucket_insert m id bucket) =
        (h.0, bucket_insert-AreEntries s m id bucket short h.1) in
      if_holds (AreEntries s) (ltb m w) first (
        if_holds (AreEntries s) (m == w)
          (ite_holds (AreEntries s) (dec_bytes id j) h
            (if_holds (AreEntries s) (le_bytes id j) first later))
          later)

  insert_at-AreFilled :
      (s : ShortDb T C) (i m : ℕ) (id : EventId) (buckets buckets' : List Bucket)
      → IsShort kv lru s id m
      → insert_at i m id buckets ≡ ok buckets'
      → AreFilled s buckets
      → AreFilled s buckets'
  unfolding insert_at
  insert_at-AreFilled s i m id [] buckets' short e h = absurd (ground arith)
  insert_at-AreFilled s zero m id (bucket ∷ buckets) buckets' short e h =
      let same : bucket_insert m id bucket ∷ buckets ≡ buckets' = ground arith in
      subst (AreFilled s) same (bucket_insert-AreEntries s m id bucket short h.0, h.1)
  insert_at-AreFilled s (suc i) m id (bucket ∷ buckets) buckets' short e h =
      elim (Result-cases (insert_at i m id buckets)) [
        | inl (rest, run) ↦
            let same : bucket ∷ rest ≡ buckets' = ground (arith, run) in
            subst (AreFilled s) same (h.0, insert_at-AreFilled s i m id buckets rest short run h.1)
        | inr (x, run) ↦ absurd (ground (arith, run))
      ]

  -- The outcome of the first loop.
  pub record Filled (starting : List EventId) (buckets : List Bucket) (s : Db) (n : ℕ)
      : Type 0 where
    pub buckets' : List Bucket
    pub shorts' : ShortDb T C
    pub n' : ℕ
    pub returned :
        fill_buckets kv lru get_pdu starting buckets s
        ≡ (ok buckets', record s { shorts = shorts' })
    pub consistent : IsConsistent kv lru shorts' n'
    pub grown : n' ≤ n + length starting
    pub kept : Kept kv lru s.shorts shorts'
    pub filled : AreFilled shorts' buckets'
    pub size : total buckets' ≤ total buckets + length starting
    pub held :
        (e : EventId)
        → in_buckets buckets' e ≡ (contains dec_bytes starting e || in_buckets buckets e)

  fill_step :
      (id : EventId) (rest : List EventId) (buckets buckets' : List Bucket) (s : Db)
      (shorts' : ShortDb T C) (m : ℕ)
      → get_or_create_shorteventid kv lru id s.shorts ≡ (ok m, shorts')
      → insert_at (m % num_buckets) m id buckets ≡ ok buckets'
      → fill_buckets kv lru get_pdu (id ∷ rest) buckets s
        ≡ fill_buckets kv lru get_pdu rest buckets' (record s { shorts = shorts' })
  unfolding fill_buckets
  fill_step id rest buckets buckets' s shorts' m run run' = ground (arith, run, run')

  pub fill_buckets_lem :
      (starting : List EventId) (buckets : List Bucket) (s : Db) (n : ℕ)
      → IsConsistent kv lru s.shorts n
      → n + length starting < u64_mod
      → length buckets ≡ num_buckets
      → AreFilled s.shorts buckets
      → Filled starting buckets s n
  fill_buckets_lem [] buckets s n k room len h = record {
    buckets' = buckets;
    shorts' = s.shorts;
    n' = n;
    returned = unfold fill_buckets in refl;
    consistent = k;
    grown = omega arith;
    kept = λ e b g. g;
    filled = h;
    size = omega arith;
    held = λ e. unfold contains in refl;
  }
  fill_buckets_lem (id ∷ rest) buckets s n k room len h =
      let g = get_or_create_shorteventid_lem kv lru id s.shorts n k (omega arith) in
      let sh = g.shortened in
      let (bs, run, len', tot, held) =
        insert_at_lem (g.short % num_buckets) g.short id buckets (omega (arith, len)) in
      let filled =
        insert_at-AreFilled g.state (g.short % num_buckets) g.short id buckets bs
          (sh.stored, sh.small) run (later-AreFilled s.shorts g.state buckets sh.kept h) in
      let f =
        fill_buckets_lem rest bs (record s { shorts = g.state }) g.new_count sh.consistent
          (omega (arith, g.grown)) (len' ∙ len) filled in
      record {
        buckets' = f.buckets';
        shorts' = f.shorts';
        n' = f.n';
        returned = fill_step id rest buckets bs s g.state g.short g.returned run ∙ f.returned;
        consistent = f.consistent;
        grown = omega (arith, f.grown, g.grown);
        kept = λ e b i. f.kept e b (sh.kept e b i);
        filled = f.filled;
        size = omega (arith, f.size, tot);
        held = λ e. ground (arith, f.held e, held e, contains-cons id rest e);
      }
