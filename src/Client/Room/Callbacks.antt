-- ===== src/Client/Room/Callbacks.antt =====
-- What sending and answering does to the callbacks of a room of webapp/public/game.js.
use isucon7_final.Prelude.{
  ℕ, zero, suc, ◌+◌, ◌≤◌, ◌<◌, ◌≡◌, ◌⊎◌, ◌≢◌, refl, subst, sym, ◌∙◌, Bool, true, false, Option,
  none, some, arith, is_some, ◌==◌, inl, inr, Bool-cases, Option-cases,
}
use native.Mathlib.Decide.{dec_le}
use isucon7_final.Js.Digits.{Text}
use isucon7_final.Js.Object.{get, put, remove, get-put, get-remove, above, get-above, Object}
use isucon7_final.Client.Room.{Callback, forget, finish_buying, free_time}

-- A request whose answer has not come yet.
abbrev pub Awaits : Object (Option Callback) → ℕ → Callback → Type 0
Awaits callbacks id c = get id callbacks ≡ some (some c)

pub record AreCoherent (req_count : ℕ) (callbacks : Object (Option Callback))
    (sending : Object Text) (buying : Bool) : Type 0 where
  -- No request number is used twice.
  pub fresh : (id : ℕ) → req_count < id → get id callbacks ≡ none
  -- A purchase that is under way is marked as such, and there is one at most.
  pub marked : (id : ℕ) → Awaits callbacks id finish_buying → buying ≡ true
  pub one_purchase :
      (i j : ℕ) → Awaits callbacks i finish_buying → Awaits callbacks j finish_buying → i ≡ j
  -- An adding that is under way stands in `sending` at its time, and no other one has that time.
  pub shown : (id t : ℕ) → Awaits callbacks id (forget t) → is_some (get t sending) ≡ true
  pub one_adding :
      (i j t : ℕ) → Awaits callbacks i (forget t) → Awaits callbacks j (forget t) → i ≡ j

-- The search of a free time ends at one.
pub free_time-is_free :
    (fuel t : ℕ) (m : Object Text)
    → above m ≤ t + fuel
    → (get (free_time fuel t m) m ≡ none) × (t ≤ free_time fuel t m)
unfolding free_time
free_time-is_free zero t m h = (get-above t m (omega arith), omega arith)
free_time-is_free (suc fuel) t m h =
    let rest = free_time-is_free fuel (t + 1) m (omega arith) in
    elim (Option-cases (get t m)) [
      | inl free ↦ ground (arith)
      | inr (v, taken) ↦ ground (arith, rest.0, rest.1)
    ]

module _ (n : ℕ) (cb : Object (Option Callback)) (sending : Object Text) (buying : Bool)
    (h : AreCoherent n cb sending buying) where
  Awaits-put :
      (c d : Callback) (id : ℕ)
      → Awaits (put (n + 1) (some c) cb) id d
      → ((id ≡ n + 1) × (d ≡ c)) ⊎ (Awaits cb id d × (id ≤ n))
  Awaits-put c d id e = elim (dec_le id n) [
    | yes early ↦ inr (ground (arith, get-put id (n + 1) (some c) cb), early)
    | no late ↦ inl (ground (arith, get-put id (n + 1) (some c) cb, h.fresh id (omega arith)))
  ]

  pub add_time-Coherent : (t : ℕ) (isu : Text) → AreCoherent n cb (put t isu sending) buying
  add_time-Coherent t isu = record {
    fresh = h.fresh;
    marked = h.marked;
    one_purchase = h.one_purchase;
    shown = λ id u e. ground (arith, get-put u t isu sending, h.shown id u e);
    one_adding = h.one_adding;
  }

  pub send_add-Coherent :
      (t : ℕ) (isu : Text)
      → get t sending ≡ none
      → AreCoherent (n + 1) (put (n + 1) (some (forget t)) cb) (put t isu sending) buying
  send_add-Coherent t isu free = record {
    fresh =
        λ id l. ground (arith, get-put id (n + 1) (some (forget t)) cb, h.fresh id (omega arith));
    marked = λ id e. elim (Awaits-put (forget t) finish_buying id e) [
      | inl (_, wrong) ↦ absurd (ground arith)
      | inr (old, _) ↦ h.marked id old
    ];
    one_purchase = λ i j e e'. elim (Awaits-put (forget t) finish_buying i e) [
      | inl (_, wrong) ↦ absurd (ground arith)
      | inr (old, _) ↦ elim (Awaits-put (forget t) finish_buying j e') [
        | inl (_, wrong) ↦ absurd (ground arith)
        | inr (old', _) ↦ h.one_purchase i j old old'
      ]
    ];
    shown = λ id u e. elim (Awaits-put (forget t) (forget u) id e) [
      | inl (_, same) ↦ ground (arith, get-put u t isu sending)
      | inr (old, _) ↦ ground (arith, get-put u t isu sending, h.shown id u old)
    ];
    one_adding = λ i j u e e'. elim (Awaits-put (forget t) (forget u) i e) [
      | inl (p, same) ↦ elim (Awaits-put (forget t) (forget u) j e') [
        | inl (q, same') ↦ p ∙ sym q
        | inr (old', _) ↦ let there = h.shown j u old' in absurd (ground arith)
      ]
      | inr (old, _) ↦ elim (Awaits-put (forget t) (forget u) j e') [
        | inl (q, same') ↦ let there = h.shown i u old in absurd (ground arith)
        | inr (old', _) ↦ h.one_adding i j u old old'
      ]
    ];
  }

  pub buy-Coherent :
      buying ≡ false → AreCoherent (n + 1) (put (n + 1) (some finish_buying) cb) sending true
  buy-Coherent idle = record {
    fresh = λ id l.
        ground (arith, get-put id (n + 1) (some finish_buying) cb, h.fresh id (omega arith));
    marked = λ id e. refl;
    one_purchase = λ i j e e'. elim (Awaits-put finish_buying finish_buying i e) [
      | inl (p, _) ↦ elim (Awaits-put finish_buying finish_buying j e') [
        | inl (q, _) ↦ p ∙ sym q
        | inr (old', _) ↦ let busy = h.marked j old' in absurd (ground arith)
      ]
      | inr (old, _) ↦ let busy = h.marked i old in absurd (ground arith)
    ];
    shown = λ id u e. elim (Awaits-put finish_buying (forget u) id e) [
      | inl (_, wrong) ↦ absurd (ground arith)
      | inr (old, _) ↦ h.shown id u old
    ];
    one_adding = λ i j u e e'. elim (Awaits-put finish_buying (forget u) i e) [
      | inl (_, wrong) ↦ absurd (ground arith)
      | inr (old, _) ↦ elim (Awaits-put finish_buying (forget u) j e') [
        | inl (_, wrong) ↦ absurd (ground arith)
        | inr (old', _) ↦ h.one_adding i j u old old'
      ]
    ];
  }

  -- With `buying` set and no request sent, as when the room is not connected.
  pub mark-Coherent : AreCoherent n cb sending true
  mark-Coherent = record {
    fresh = h.fresh;
    marked = λ id e. refl;
    one_purchase = h.one_purchase;
    shown = h.shown;
    one_adding = h.one_adding;
  }

  Awaits-answered :
      (k id : ℕ) (d : Callback) → Awaits (put k none cb) id d → Awaits cb id d × (id ≢ k)
  Awaits-answered k id d e = ground (arith, get-put id k none cb)

  Awaits-sent : (k : ℕ) (d : Callback) → Awaits cb k d → k ≤ n
  Awaits-sent k d e = elim (dec_le k n) [
    | yes sent ↦ sent
    | no unsent ↦ let unknown = h.fresh k (omega arith) in absurd (ground arith)
  ]

  answered-fresh :
      (k : ℕ) (d : Callback) → Awaits cb k d → (id : ℕ) → n < id → get id (put k none cb) ≡ none
  answered-fresh k d e id l = ground (arith, get-put id k none cb, Awaits-sent k d e, h.fresh id l)

  pub forget-Coherent :
      (k t : ℕ) → Awaits cb k (forget t) → AreCoherent n (put k none cb) (remove t sending) buying
  forget-Coherent k t here = record {
    fresh = answered-fresh k (forget t) here;
    marked = λ id e. h.marked id (Awaits-answered k id finish_buying e).0;
    one_purchase = λ i j e e'.
        h.one_purchase i j (Awaits-answered k i finish_buying e).0
          (Awaits-answered k j finish_buying e').0;
    shown = λ id u e.
        let (old, other) = Awaits-answered k id (forget u) e in
        elim (Bool-cases (u == t)) [
          | inl same ↦
              let u_is_t : u ≡ t = ground arith in
              absurd
                (other (h.one_adding id k t (subst (λ v. Awaits cb id (forget v)) u_is_t old) here))
          | inr apart ↦ ground (arith, get-remove u t sending, h.shown id u old)
        ];
    one_adding = λ i j u e e'.
        h.one_adding i j u (Awaits-answered k i (forget u) e).0
          (Awaits-answered k j (forget u) e').0;
  }

  pub finish-Coherent :
      (k : ℕ) → Awaits cb k finish_buying → AreCoherent n (put k none cb) sending false
  finish-Coherent k here = record {
    fresh = answered-fresh k finish_buying here;
    marked = λ id e.
        let (old, other) = Awaits-answered k id finish_buying e in
        absurd (other (h.one_purchase id k old here));
    one_purchase = λ i j e e'.
        h.one_purchase i j (Awaits-answered k i finish_buying e).0
          (Awaits-answered k j finish_buying e').0;
    shown = λ id u e. h.shown id u (Awaits-answered k id (forget u) e).0;
    one_adding = λ i j u e e'.
        h.one_adding i j u (Awaits-answered k i (forget u) e).0
          (Awaits-answered k j (forget u) e').0;
  }
