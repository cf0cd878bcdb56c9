-- ===== src/Explorer/Order/Signs.antt =====
-- Signs of comparisons, and what makes a comparison an order.
use web_ssh_tool.Common.{◌≡◌, ◌≢◌, arith}

pub data Sign : Type 0 where
  negative nil positive : Sign

abbrev pub flip : Sign → Sign
flip negative = positive
flip nil = nil
flip positive = negative

-- The second comparison counts where the first finds no difference.
abbrev pub then_by : Sign → Sign → Sign
then_by negative s = negative
then_by nil s = s
then_by positive s = positive

-- What `sort` asks of its argument on the elements with `P`: swapping the two flips the sign, and
-- "not greater" is transitive.
pub record IsConsistent {ℓ} {A : Type ℓ} (P : A → Type 0) (cmp : A → A → Sign) : Type ℓ where
  pub swap : (x y : A) → P x → P y → cmp y x ≡ flip (cmp x y)
  pub trans :
      (x y z : A) → P x → P y → P z → cmp x y ≢ positive → cmp y z ≢ positive → cmp x z ≢ positive

module _ {ℓ} {A : Type ℓ} (P : A → Type 0) (f g : A → A → Sign) where
  pub then_by-IsConsistent :
      IsConsistent P f → IsConsistent P g → IsConsistent P (λ x y. then_by (f x y) (g x y))
  then_by-IsConsistent cf cg = record {
    swap = λ x y px py. ground (arith, cf.swap x y px py, cg.swap x y px py);
    trans = λ x y z px py pz h k. ground (
      arith,
      cf.trans x y z px py pz,
      cf.trans z x y pz px py,
      cf.trans y z x py pz px,
      cf.swap x y px py,
      cf.swap y z py pz,
      cf.swap x z px pz,
      cg.trans x y z px py pz,
    );
  }
