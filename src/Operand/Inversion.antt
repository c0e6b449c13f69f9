-- ===== src/Operand/Inversion.antt =====
-- What a successful ConvertExpression of src/OpcodeEngine.cpp has done: the inversion of its
-- chain of results, with the children that an operation pushes to the node array.
use Prim.Native.String.{String}
use aether_vm.Prelude.{
  ℕ, Bool, true, false, Option, none, some, List, [], ◌∷◌, ◌++◌, length, ◌≡◌, refl, subst, arith,
}
use aether_vm.Operand.{Opcode, OperandExpression, unary, binary, MetaExpression, k_operation}
use aether_vm.Operand.Convert.{
  Result, ok, err, ◌>>=◌, ◌>>◌, guard, opcode_fits, node_width, push_node, append_child,
  convert_expression,
}

-- Inversion of a successful bind
pub bind-eq-ok {ℓ κ} :
    {A : Type ℓ} {B : Type κ} {result : B} (first : Result A) (next : A → Result B)
    → first >>= next ≡ ok result
    → (value : A) × (first ≡ ok value) × (next value ≡ ok result)
bind-eq-ok (err message) next h = cc
bind-eq-ok (ok value) next h = (value, refl, h)

pub guard-eq-ok {ℓ} :
    {B : Type ℓ} (b : Bool) (e : _) (k : Result B) {r : B} → (guard b e >> k) ≡ ok r → k ≡ ok r
guard-eq-ok true e k h = h
guard-eq-ok false e k h = cc

push-eq-ok :
    (child : MetaExpression) (nodes : List MetaExpression) {r : ℕ × List MetaExpression}
    → push_node child nodes ≡ ok r
    → (r.0 ≡ length nodes) × (r.1 ≡ nodes ++ child ∷ [])
unfolding push_node
push-eq-ok child nodes h = ground arith

-- The array after a child has been appended
abbrev pub with_child : MetaExpression × List MetaExpression → List MetaExpression
with_child p = p.1 ++ p.0 ∷ []

append_child-eq-ok :
    (m : Result (MetaExpression × List MetaExpression)) (s : ℕ × List MetaExpression)
    → append_child m ≡ ok s
    → (p : MetaExpression × List MetaExpression) × (m ≡ ok p) × (s ≡ (length p.1, with_child p))
unfolding append_child
append_child-eq-ok (ok p) s h = let g = push-eq-ok p.0 p.1 h in (p, refl, ground arith)
append_child-eq-ok (err e) s h = cc

-- What a converted operation is made of: its converted children, each appended to the array.
pub record UnaryParts (regoffs : String → Option ℕ) (op : Opcode) (w : Option ℕ)
    (e : OperandExpression) (nodes : List MetaExpression) (r : MetaExpression × List MetaExpression)
    : Type 0 where
  pub child : MetaExpression × List MetaExpression
  pub width : ℕ
  pub converted : convert_expression regoffs e nodes ≡ ok child
  pub fits : node_width w ≡ ok width
  pub result : r ≡ (k_operation op width (length child.1) none, with_child child)

pub record BinaryParts (regoffs : String → Option ℕ) (op : Opcode) (w : Option ℕ)
    (e f : OperandExpression) (nodes : List MetaExpression)
    (r : MetaExpression × List MetaExpression) : Type 0 where
  pub left : MetaExpression × List MetaExpression
  pub right : MetaExpression × List MetaExpression
  pub width : ℕ
  pub left_converted : convert_expression regoffs e nodes ≡ ok left
  pub right_converted : convert_expression regoffs f (with_child left) ≡ ok right
  pub fits : node_width w ≡ ok width
  pub result : r ≡ (k_operation op width (length left.1) (some (length right.1)), with_child right)

module _ (regoffs : String → Option ℕ) (op : Opcode) (w : Option ℕ)
    (nodes : List MetaExpression) where
  abbrev unary_tail : ℕ × List MetaExpression → Result (MetaExpression × List MetaExpression)
  unary_tail s = do width ← node_width w; ok (k_operation op width s.0 none, s.1)

  abbrev binary_tail : ℕ → ℕ × List MetaExpression → Result (MetaExpression × List MetaExpression)
  binary_tail lhs s = do width ← node_width w; ok (k_operation op width lhs (some s.0), s.1)

  pub unary-eq-ok :
      (e : OperandExpression) {r : MetaExpression × List MetaExpression}
      → convert_expression regoffs (unary op w e) nodes ≡ ok r
      → UnaryParts regoffs op w e nodes r
  unfolding convert_expression
  unary-eq-ok e {r} h = first (bind-eq-ok _ unary_tail (guard-eq-ok (opcode_fits op) _ _ h))
    where
      second :
          (p : MetaExpression × List MetaExpression)
          → convert_expression regoffs e nodes ≡ ok p
          → unary_tail (length p.1, with_child p) ≡ ok r
          → UnaryParts regoffs op w e nodes r
      second p hp h1 =
          let (width, hw, h2) = bind-eq-ok (node_width w) _ h1 in
          record { child = p; width = width; converted = hp; fits = hw; result = ground arith }

      first :
          (s : ℕ × List MetaExpression) × (append_child (convert_expression regoffs e nodes) ≡ ok s)
            × (unary_tail s ≡ ok r)
          → UnaryParts regoffs op w e nodes r
      first (s, hs, h1) =
          let (p, hp, es) = append_child-eq-ok (convert_expression regoffs e nodes) s hs in
          second p hp (subst (λ t. unary_tail t ≡ ok r) es h1)

  abbrev right_tail :
      OperandExpression → ℕ × List MetaExpression → Result (MetaExpression × List MetaExpression)
  right_tail f s = append_child (convert_expression regoffs f s.1) >>= binary_tail s.0

  pub binary-eq-ok :
      (e f : OperandExpression) {r : MetaExpression × List MetaExpression}
      → convert_expression regoffs (binary op w e f) nodes ≡ ok r
      → BinaryParts regoffs op w e f nodes r
  unfolding convert_expression
  binary-eq-ok e f {r} h = first (bind-eq-ok _ (right_tail f) (guard-eq-ok (opcode_fits op) _ _ h))
    where
      fourth :
          (p q : MetaExpression × List MetaExpression)
          → convert_expression regoffs e nodes ≡ ok p
          → convert_expression regoffs f (with_child p) ≡ ok q
          → binary_tail (length p.1) (length q.1, with_child q) ≡ ok r
          → BinaryParts regoffs op w e f nodes r
      fourth p q hp hq h1 =
          let (width, hw, h2) = bind-eq-ok (node_width w) _ h1 in
          record {
            left = p;
            right = q;
            width = width;
            left_converted = hp;
            right_converted = hq;
            fits = hw;
            result = ground arith;
          }

      third :
          (p : MetaExpression × List MetaExpression)
          → convert_expression regoffs e nodes ≡ ok p
          → (s : ℕ × List MetaExpression) × (append_child
                (convert_expression regoffs f (with_child p))
              ≡ ok s)
            × (binary_tail (length p.1) s ≡ ok r)
          → BinaryParts regoffs op w e f nodes r
      third p hp (s, hs, h1) =
          let (q, hq, es) = append_child-eq-ok (convert_expression regoffs f (with_child p)) s hs in
          fourth p q hp hq (subst (λ t. binary_tail (length p.1) t ≡ ok r) es h1)

      second :
          (p : MetaExpression × List MetaExpression)
          → convert_expression regoffs e nodes ≡ ok p
          → right_tail f (length p.1, with_child p) ≡ ok r
          → BinaryParts regoffs op w e f nodes r
      second p hp h1 = third p hp (bind-eq-ok _ (binary_tail (length p.1)) h1)

      first :
          (s : ℕ × List MetaExpression) × (append_child (convert_expression regoffs e nodes) ≡ ok s)
            × (right_tail f s ≡ ok r)
          → BinaryParts regoffs op w e f nodes r
      first (s, hs, h1) =
          let (p, hp, es) = append_child-eq-ok (convert_expression regoffs e nodes) s hs in
          second p hp (subst (λ t. right_tail f t ≡ ok r) es h1)
