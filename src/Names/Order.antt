-- ===== src/Names/Order.antt =====
-- `strcmp` is a total order on names.
use Prim.Native.Nat.{Ordering}
use skynet_gameserver.Prelude.{◌≡◌, refl, [], ◌∷◌, arith}
use skynet_gameserver.Names.{Name, strcmp}

pub strcmp-eq : (a b : Name) → strcmp a b ≡ Ordering.eq → a ≡ b
unfolding strcmp
strcmp-eq [] [] e = refl
strcmp-eq [] (b ∷ bs) e = absurd (cc)
strcmp-eq (a ∷ as') [] e = absurd (cc)
strcmp-eq (a ∷ as') (b ∷ bs) e = ground (arith, strcmp-eq as' bs)

pub strcmp_self : (a : Name) → strcmp a a ≡ Ordering.eq
unfolding strcmp
strcmp_self [] = refl
strcmp_self (a ∷ as') = ground (arith, strcmp_self as')

abbrev pub Below : Name → Name → Type 0
Below a b = strcmp a b ≡ Ordering.lt

pub Below-of_gt : (a b : Name) → strcmp a b ≡ Ordering.gt → Below b a
unfolding strcmp
Below-of_gt [] [] e = absurd (cc)
Below-of_gt [] (b ∷ bs) e = absurd (cc)
Below-of_gt (a ∷ as') [] e = refl
Below-of_gt (a ∷ as') (b ∷ bs) e = ground (arith, Below-of_gt as' bs)

pub Below-trans : (a b c : Name) → Below a b → Below b c → Below a c
unfolding strcmp
Below-trans [] [] c p q = absurd (cc)
Below-trans [] (b ∷ bs) [] p q = absurd (cc)
Below-trans [] (b ∷ bs) (c ∷ cs) p q = refl
Below-trans (a ∷ as') [] c p q = absurd (cc)
Below-trans (a ∷ as') (b ∷ bs) [] p q = absurd (cc)
Below-trans (a ∷ as') (b ∷ bs) (c ∷ cs) p q = ground (arith, Below-trans as' bs cs)
