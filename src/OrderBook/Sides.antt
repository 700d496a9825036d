-- ===== src/OrderBook/Sides.antt =====
-- The two sides of the book as a family, and a change of one of them.
use lock_free_limit_order_bo.Prelude.{◌≡◌, ◌≢◌, refl}
use lock_free_limit_order_bo.Order.{Side, buy, sell}
use lock_free_limit_order_bo.OrderBook.State.{Book, BookSide, own, passive, set_own, set_passive}

abbrev pub opposite : Side → Side
opposite buy = sell
opposite sell = buy

-- A family with another value at one side.
abbrev pub set_side {ℓ} : {A : Type ℓ} → Side → A → (Side → A) → Side → A
set_side buy v f buy = v
set_side buy v f sell = f sell
set_side sell v f buy = f buy
set_side sell v f sell = v

-- What holds of a side and of the opposite one holds of every side.
pub Side-ind {ℓ} : (s : Side) (P : Side → Type ℓ) → P s → P (opposite s) → (t : Side) → P t
Side-ind buy P x y buy = x
Side-ind buy P x y sell = y
Side-ind sell P x y buy = y
Side-ind sell P x y sell = x

module _ {ℓ} {A : Type ℓ} (v : A) (f : Side → A) where
  pub set_side_self : (s : Side) → set_side s v f s ≡ v
  set_side_self buy = refl
  set_side_self sell = refl

  pub set_side-opposite : (s : Side) → set_side s v f (opposite s) ≡ f (opposite s)
  set_side-opposite buy = refl
  set_side-opposite sell = refl

  pub set_side_own : (s : Side) → set_side (opposite s) v f s ≡ f s
  set_side_own buy = refl
  set_side_own sell = refl

pub passive-own : (s : Side) (b : Book) → passive s b ≡ own (opposite s) b
passive-own buy b = refl
passive-own sell b = refl

pub set_passive-set_own :
    (s : Side) (h : BookSide) (b : Book) → set_passive s h b ≡ set_own (opposite s) h b
set_passive-set_own buy h b = refl
set_passive-set_own sell h b = refl

pub own-set_own :
    (s : Side) (h : BookSide) (b : Book) (t : Side)
    → own t (set_own s h b) ≡ set_side s h (λ r. own r b) t
own-set_own buy h b buy = refl
own-set_own buy h b sell = refl
own-set_own sell h b buy = refl
own-set_own sell h b sell = refl

-- Applying a function to each side.
pub ap-set_side {ℓ κ} :
    {A : Type ℓ} {B : Type κ} (g : A → B) (s : Side) (v : A) (f : Side → A) (t : Side)
    → g (set_side s v f t) ≡ set_side s (g v) (λ r. g (f r)) t
ap-set_side g buy v f buy = refl
ap-set_side g buy v f sell = refl
ap-set_side g sell v f buy = refl
ap-set_side g sell v f sell = refl

pub opposite-ne : (s : Side) → s ≢ opposite s
opposite-ne buy = λ e. cc
opposite-ne sell = λ e. cc
