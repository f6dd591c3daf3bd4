-- ===== src/NetworkInterface/Maps.antt =====
-- The three maps of libsponge/network_interface.hh, and what its calls do to them.
use csed.Base.{
  ℕ, ◌≡◌, ap, ◌∙◌, true, false, Option, none, some, List, arith, ◌==◌, Bool-cases, inl, inr,
}
use csed.Base.Dict.{Dict, find, put, erase, known, known-put, known-erase}
use csed.Ethernet.{EthernetAddress}

-- Of the mappings, the times of requests and the queues: an address has a queue exactly if a request is noted for it, so
-- that the `erase` of what `find` gives is defined, and nothing waits for an address that is mapped.
pub record Sound (ip2eth : Dict (EthernetAddress × ℕ)) (asked : Dict ℕ)
    (queues : Dict (List (List (List ℕ)))) : Type 0 where
  pub paired : (ip : ℕ) → known (find ip queues) ≡ known (find ip asked)
  pub no_wait : (ip : ℕ) → known (find ip ip2eth) ≡ true → known (find ip queues) ≡ false

-- The changes of the maps that the calls make.
module _ (e : Dict (EthernetAddress × ℕ)) (q : Dict ℕ) (w : Dict (List (List (List ℕ))))
    (ip : ℕ) where
  same_key :
      {A : Type 0} (i : ℕ) (m : Dict A) (a : Option A)
      → find ip m ≡ a
      → (i == ip) ≡ true
      → find i m ≡ a
  same_key i m a f h = ap (λ j. find j m) {x = i} (ground (arith, h)) ∙ f

  -- An address with no mapping gets a queue.
  waits-alone :
      (x : List (List (List ℕ)))
      → Sound e q w
      → find ip e ≡ none
      → (i : ℕ) → known (find i e) ≡ true
      → known (find i (put ip x w)) ≡ false
  waits-alone x v u i h = elim (Bool-cases (i == ip)) [
    | inl here ↦ absurd (ground (arith, h, ap known (same_key i e none u here)))
    | inr there ↦ ground (arith, known-put i ip x w, there, v.no_wait i h)
  ]

  pub first-Sound :
      (t : ℕ) (x : List (List (List ℕ)))
      → Sound e q w
      → find ip e ≡ none
      → Sound e (put ip t q) (put ip x w)
  first-Sound t x v u = record {
    paired = λ i. ground (arith, known-put i ip t q, known-put i ip x w, v.paired i);
    no_wait = waits-alone x v u;
  }

  pub again-Sound :
      (s : ℕ) (x : List (List (List ℕ)))
      → Sound e q w
      → find ip q ≡ some s
      → find ip e ≡ none
      → Sound e q (put ip x w)
  again-Sound s x v f u = record {
    paired = λ i. elim (Bool-cases (i == ip)) [
      | inl here ↦ ground (arith, known-put i ip x w, here, ap known (same_key i q (some s) f here))
      | inr there ↦ ground (arith, known-put i ip x w, there, v.paired i)
    ];
    no_wait = waits-alone x v u;
  }

  -- An address is learnt, and what waits for it is sent.
  pub flush-Sound :
      (m : EthernetAddress × ℕ) → Sound e q w → Sound (put ip m e) (erase ip q) (erase ip w)
  flush-Sound m v = record {
    paired = λ i. ground (arith, known-erase i ip q, known-erase i ip w, v.paired i);
    no_wait = λ i h. elim (Bool-cases (i == ip)) [
      | inl here ↦ ground (arith, known-erase i ip w, here)
      | inr there ↦
          let mapped : known (find i e) ≡ true = ground (arith, known-put i ip m e, there, h) in
          ground (arith, known-erase i ip w, there, v.no_wait i mapped)
    ];
  }

  pub learn-Sound :
      (m : EthernetAddress × ℕ) → Sound e q w → find ip w ≡ none → Sound (put ip m e) q w
  learn-Sound m v f = record {
    paired = v.paired;
    no_wait = λ i h. elim (Bool-cases (i == ip)) [
      | inl here ↦ ap known (same_key i w none f here)
      | inr there ↦
          let mapped : known (find i e) ≡ true = ground (arith, known-put i ip m e, there, h) in
          v.no_wait i mapped
    ];
  }
