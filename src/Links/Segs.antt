-- ===== src/Links/Segs.antt =====
-- Segments of a list that is linked both ways: joined, cut, and with a node put in or taken out.
use meaty_skeleton.Prelude.{
  ℕ, ◌≡◌, ◌≢◌, refl, sym, ◌∙◌, Option, none, some, List, [], ◌∷◌, ◌++◌, arith,
}
use meaty_skeleton.Links.Defs.{first_or, last_or, Seg, Fresh, Distinct, Agree, Apart, IsQueue}
use meaty_skeleton.Links.Laws.{
  first_or-append, Fresh-append_left, Fresh-append_right, Distinct-append_left,
  Distinct-append_right, Distinct-Apart, Distinct-insert, Distinct-remove, last_or-ne, Agree-before,
  Agree-after,
}

module _ (next previous next' previous' : ℕ → Option ℕ) where
  -- A segment stays linked where the store changes elsewhere.
  pub Seg-frame :
      (b e : Option ℕ) (xs : List ℕ)
      → Agree next next' xs
      → Agree previous previous' xs
      → Seg next previous b e xs
      → Seg next' previous' b e xs
  Seg-frame b e [] n p s = tt
  Seg-frame b e (x ∷ xs) n p s = (p.0 ∙ s.0, n.0 ∙ s.1, Seg-frame (some x) e xs n.1 p.1 s.2)

  -- The first node is linked to another node before it; the others are as before.
  pub Seg-set_begin :
      (x : ℕ) (b b' e : Option ℕ) (xs : List ℕ)
      → Distinct xs
      → Fresh x xs
      → Agree next next' xs
      → ((y : ℕ) → first_or none xs ≡ some y → previous' y ≡ b')
      → ((y : ℕ) → y ≢ x → first_or none xs ≢ some y → previous' y ≡ previous y)
      → Seg next previous b e xs
      → Seg next' previous' b' e xs
  Seg-set_begin x b b' e [] d h n f o s = tt
  Seg-set_begin x b b' e (y ∷ xs) d h n f o s =
      (f y refl, n.0 ∙ s.1, Seg-frame (some y) e xs n.1 (rest xs d.0 h.1) s.2)
    where
      rest : (zs : List ℕ) → Fresh y zs → Fresh x zs → Agree previous previous' zs
      rest [] a k = tt
      rest (z ∷ zs) a k = (o z (λ q. k.0 (sym q)) (λ q. a.0 (ground arith)), rest zs a.1 k.1)

  -- The last node is linked to another node behind it; the others are as before.
  pub Seg-set_end :
      (x : ℕ) (b e e' : Option ℕ) (xs : List ℕ)
      → Distinct xs
      → Fresh x xs
      → Agree previous previous' xs
      → ((y : ℕ) → last_or none xs ≡ some y → next' y ≡ e')
      → ((y : ℕ) → y ≢ x → last_or none xs ≢ some y → next' y ≡ next y)
      → Seg next previous b e xs
      → Seg next' previous' b e' xs
  Seg-set_end x b e e' [] d h p l o s = tt
  Seg-set_end x b e e' (y ∷ []) d h p l o s = (p.0 ∙ s.0, l y refl, tt)
  Seg-set_end x b e e' (y ∷ z ∷ xs) d h p l o s = (
    p.0 ∙ s.0,
    o y (λ q. h.0 (sym q)) (last_or-ne y (some z) xs d.0.1 (λ q. d.0.0 (ground arith))) ∙ s.1,
    Seg-set_end x (some y) e e' (z ∷ xs) d.1 h.1 p.1 l o s.2,
  )

module _ (next previous : ℕ → Option ℕ) where
  pub Seg-append :
      (b e : Option ℕ) (xs ys : List ℕ)
      → Seg next previous b (first_or e ys) xs
      → Seg next previous (last_or b xs) e ys
      → Seg next previous b e (xs ++ ys)
  Seg-append b e [] ys s t = t
  Seg-append b e (x ∷ xs) ys s t =
      (s.0, s.1 ∙ sym (first_or-append e xs ys), Seg-append (some x) e xs ys s.2 t)

  pub Seg-append_left :
      (b e : Option ℕ) (xs ys : List ℕ)
      → Seg next previous b e (xs ++ ys)
      → Seg next previous b (first_or e ys) xs
  Seg-append_left b e [] ys s = tt
  Seg-append_left b e (x ∷ xs) ys s =
      (s.0, s.1 ∙ first_or-append e xs ys, Seg-append_left (some x) e xs ys s.2)

  pub Seg-append_right :
      (b e : Option ℕ) (xs ys : List ℕ)
      → Seg next previous b e (xs ++ ys)
      → Seg next previous (last_or b xs) e ys
  Seg-append_right b e [] ys s = s
  Seg-append_right b e (x ∷ xs) ys s = Seg-append_right (some x) e xs ys s.2

module _ (next previous next' previous' : ℕ → Option ℕ) (x : ℕ) (xs ys : List ℕ) where
  -- The store after `x` was linked in between `xs` and `ys`, pointer by pointer.
  pub record Inserted : Type 0 where
    pub after_last : (y : ℕ) → last_or none xs ≡ some y → next' y ≡ some x
    pub before_first : (y : ℕ) → first_or none ys ≡ some y → previous' y ≡ some x
    pub self_next : next' x ≡ first_or none ys
    pub self_previous : previous' x ≡ last_or none xs
    pub other_next : (y : ℕ) → y ≢ x → last_or none xs ≢ some y → next' y ≡ next y
    pub other_previous : (y : ℕ) → y ≢ x → first_or none ys ≢ some y → previous' y ≡ previous y

  -- The store after `x` was linked out from between `xs` and `ys`.
  pub record Removed : Type 0 where
    pub after_last : (y : ℕ) → last_or none xs ≡ some y → next' y ≡ first_or none ys
    pub before_first : (y : ℕ) → first_or none ys ≡ some y → previous' y ≡ last_or none xs
    pub other_next : (y : ℕ) → y ≢ x → last_or none xs ≢ some y → next' y ≡ next y
    pub other_previous : (y : ℕ) → y ≢ x → first_or none ys ≢ some y → previous' y ≡ previous y

module _ {next previous next' previous' : ℕ → Option ℕ} {head tail head' tail' : Option ℕ} where
  pub IsQueue-insert :
      (x : ℕ) (xs ys : List ℕ)
      → Fresh x (xs ++ ys)
      → Inserted next previous next' previous' x xs ys
      → head' ≡ first_or none (xs ++ x ∷ ys)
      → tail' ≡ last_or none (xs ++ x ∷ ys)
      → IsQueue next previous head tail (xs ++ ys)
      → IsQueue next' previous' head' tail' (xs ++ x ∷ ys)
  IsQueue-insert x xs ys f w eh et q = record {
    distinct = Distinct-insert x xs ys q.distinct f;
    linked =
        Seg-append next' previous' none none xs (x ∷ ys)
          (Seg-set_end next previous next' previous' x none (first_or none ys) (some x) xs
            (Distinct-append_left xs ys q.distinct) fl
            (Agree-before previous previous' x xs ys fl apart w.other_previous) w.after_last
            w.other_next (Seg-append_left next previous none none xs ys q.linked))
          (
            w.self_previous,
            w.self_next,
            Seg-set_begin next previous next' previous' x (last_or none xs) (some x) none ys
                (Distinct-append_right xs ys q.distinct) fr
                (Agree-after next next' x xs ys fr apart w.other_next) w.before_first
                w.other_previous (Seg-append_right next previous none none xs ys q.linked),
          );
    at_head = eh;
    at_tail = et;
  }
    where
      fl : Fresh x xs
      fl = Fresh-append_left x xs ys f

      fr : Fresh x ys
      fr = Fresh-append_right x xs ys f

      apart : Apart xs ys
      apart = Distinct-Apart xs ys q.distinct

  pub IsQueue-remove :
      (x : ℕ) (xs ys : List ℕ)
      → Removed next previous next' previous' x xs ys
      → head' ≡ first_or none (xs ++ ys)
      → tail' ≡ last_or none (xs ++ ys)
      → IsQueue next previous head tail (xs ++ x ∷ ys)
      → IsQueue next' previous' head' tail' (xs ++ ys)
  IsQueue-remove x xs ys w eh et q = record {
    distinct = d.0;
    linked =
        Seg-append next' previous' none none xs ys
          (Seg-set_end next previous next' previous' x none (some x) (first_or none ys) xs
            (Distinct-append_left xs ys d.0) fl
            (Agree-before previous previous' x xs ys fl apart w.other_previous) w.after_last
            w.other_next (Seg-append_left next previous none none xs (x ∷ ys) q.linked))
          (Seg-set_begin next previous next' previous' x (some x) (last_or none xs) none ys
            (Distinct-append_right xs ys d.0) fr
            (Agree-after next next' x xs ys fr apart w.other_next) w.before_first w.other_previous
            (Seg-append_right next previous none none xs (x ∷ ys) q.linked).2);
    at_head = eh;
    at_tail = et;
  }
    where
      d : Distinct (xs ++ ys) × Fresh x (xs ++ ys)
      d = Distinct-remove x xs ys q.distinct

      fl : Fresh x xs
      fl = Fresh-append_left x xs ys d.1

      fr : Fresh x ys
      fr = Fresh-append_right x xs ys d.1

      apart : Apart xs ys
      apart = Distinct-Apart xs ys d.0

-- A queue stays one where no node of the store changes.
pub IsQueue-frame :
    {next previous next' previous' : ℕ → Option ℕ} {head tail : Option ℕ} {xs : List ℕ}
    → ((y : ℕ) → next' y ≡ next y)
    → ((y : ℕ) → previous' y ≡ previous y)
    → IsQueue next previous head tail xs
    → IsQueue next' previous' head tail xs
IsQueue-frame {next} {previous} {next'} {previous'} {xs = xs} n p q = record {
  distinct = q.distinct;
  linked =
      Seg-frame next previous next' previous' none none xs (agree next next' n xs)
        (agree previous previous' p xs) q.linked;
  at_head = q.at_head;
  at_tail = q.at_tail;
}
  where
    agree : (f g : ℕ → Option ℕ) → ((y : ℕ) → g y ≡ f y) → (ys : List ℕ) → Agree f g ys
    agree f g h [] = tt
    agree f g h (y ∷ ys) = (h y, agree f g h ys)
