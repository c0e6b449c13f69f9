-- ===== src/Operand/Expression.antt =====
-- ConvertExpression of src/OpcodeEngine.cpp against the two evaluators, the one of src/InterpMetaData.cpp
-- on the node array and the one of src/OpcodeEngine.cpp on the tree.
use Prim.Native.String.{String}
use mathlib.Core.List.{append-nil, append_assoc}
use aether_vm.Prelude.{
  ℕ, zero, suc, ◌/◌, ◌%◌, ◌^◌, ◌≤◌, ◌<◌, max, Option, none, some, List, [], ◌∷◌, ◌++◌, length, ◌≡◌,
  refl, ap, ◌∙◌, arith, get_elem?, bit_or, le_trans, mod-lt, one-le-pow, pow-le-pow_right,
}
use aether_vm.Word.{shl64}
use aether_vm.Word.Digits.{bit_or-above}
use aether_vm.Operand.{
  State, Opcode, zext, sext, trunc, OperandExpression, null, unary, binary, register, constant,
  name, MetaExpression,
}
use aether_vm.Operand.Raw
use aether_vm.Operand.Raw.{apply_opcode, lift_expression, load_named, named_size}
use aether_vm.Operand.Meta.{apply_meta_opcode, lift_meta_expression}
use aether_vm.Operand.Convert.{ok, node_width, convert_named, convert_expression}
use aether_vm.Operand.Inversion.{with_child, unary-eq-ok, binary-eq-ok}

-- The height of an expression: the fuel that its evaluation from the array needs
abbrev pub height : OperandExpression → ℕ
height (unary op w e) = suc (height e)
height (binary op w e f) = suc (max (height e) (height f))
height _ = 1

bind-eq-some {ℓ κ} :
    {A : Type ℓ} {B : Type κ} (m : Option A) (f : A → Option B) {b : B}
    → Raw.◌>>=◌ m f ≡ some b
    → (a : A) × (m ≡ some a) × (f a ≡ some b)
bind-eq-some (some a) f h = (a, refl, h)
bind-eq-some none f h = cc

-- One node of an operation: what the tree's switch gives, the node's switch gives.
apply_agrees :
    (op : Opcode) (w : Option ℕ) (width a b : ℕ) {v : ℕ}
    → node_width w ≡ ok width
    → apply_opcode op w a b ≡ some v
    → apply_meta_opcode op width a b ≡ some v
unfolding node_width apply_opcode apply_meta_opcode
apply_agrees zext none width a b p h = cc
apply_agrees zext (some w) width a b p h = ground arith
apply_agrees sext none width a b p h = cc
apply_agrees sext (some w) width a b p h = ground arith
apply_agrees trunc none width a b p h = cc
apply_agrees trunc (some w) width a b p h = ground arith
apply_agrees op w width a b p h = h

-- A child that was pushed is found at its index, whatever follows.
get_elem?-push {ℓ} :
    {A : Type ℓ} (xs : List A) (x : A) (ys : List A)
    → get_elem? ((xs ++ x ∷ []) ++ ys) (length xs) ≡ some x
get_elem?-push [] x ys = refl
get_elem?-push (z ∷ xs) x ys = get_elem?-push xs x ys

regroup {ℓ} :
    {A : Type ℓ} (nodes l r : List A) (x : A) (ys : List A)
    → (((nodes ++ l) ++ x ∷ []) ++ r) ++ ys ≡ nodes ++ (l ++ (x ∷ r ++ ys))
regroup nodes l r x ys = simp append_assoc

regroup_right {ℓ} :
    {A : Type ℓ} (xs r : List A) (y : A) (ys : List A)
    → ((xs ++ r) ++ y ∷ []) ++ ys ≡ xs ++ (r ++ y ∷ ys)
regroup_right xs r y ys = simp append_assoc

-- A constant's two halves, put together again
constant_back :
    (bits value : ℕ)
    → bits ≤ 64
    → bit_or (shl64 (value % 2 ^ bits / 2 ^ 32) 32) (value % 2 ^ bits % 2 ^ 32) ≡ value % 2 ^ bits
unfolding shl64
constant_back bits value h = go (value % 2 ^ bits) fits
  where
    fits : value % 2 ^ bits < 2 ^ 64
    fits =
        le_trans (mod-lt value (one-le-pow bits 2 (omega arith)))
          (pow-le-pow_right {n = 2} (omega arith) {j = 64} h)

    go : (v : ℕ) → v < 2 ^ 64 → bit_or (shl64 (v / 2 ^ 32) 32) (v % 2 ^ 32) ≡ v
    go v p = ground (arith, bit_or-above 32 (v / 2 ^ 32) (v % 2 ^ 32) (omega arith))

-- The node array only grows: what a conversion has pushed stays where it is.
pub convert_grows :
    (regoffs : String → Option ℕ) (e : OperandExpression) (nodes : List MetaExpression)
    {r : MetaExpression × List MetaExpression}
    → convert_expression regoffs e nodes ≡ ok r
    → (extra : List MetaExpression) × (r.1 ≡ nodes ++ extra)
unfolding convert_expression convert_named
convert_grows regoffs null nodes h = cc
convert_grows regoffs (unary op w e) nodes h =
    let u = unary-eq-ok regoffs op w nodes e h in
    let (extra, ex) = convert_grows regoffs e nodes u.converted in
    (
      extra ++ u.child.0 ∷ [],
      ap (λ t. t.1) u.result ∙ rw ex (append_assoc nodes extra (u.child.0 ∷ [])),
    )
convert_grows regoffs (binary op w e f) nodes h =
    let b = binary-eq-ok regoffs op w nodes e f h in
    let (left, el) = convert_grows regoffs e nodes b.left_converted in
    let (right, er) = convert_grows regoffs f (with_child b.left) b.right_converted in
    (
      left ++ (b.left.0 ∷ right ++ b.right.0 ∷ []),
      ap (λ t. t.1) b.result ∙ rw (er, el) (regroup nodes left right b.left.0 (b.right.0 ∷ [])),
    )
convert_grows regoffs (register reg size) nodes h = ([], rw append-nil (ground arith))
convert_grows regoffs (constant bits value) nodes h = ([], rw append-nil (ground arith))
convert_grows regoffs (name reg) nodes h = ([], rw append-nil (ground arith))

-- A child at its place in the array that the evaluator is given
child_found :
    (p : MetaExpression × List MetaExpression) (all more : List MetaExpression)
    → all ≡ with_child p ++ more
    → get_elem? all (length p.1) ≡ some p.0
child_found p all more h = rw h (get_elem?-push p.1 p.0 more)

-- An expression whose conversion succeeds and whose evaluation in the engine gives `v` evaluates to
-- `v` from the converted node, in every array that continues the built one, with fuel for its height.
pub lift-convert :
    (regoffs : String → Option ℕ) (s : State) (e : OperandExpression) (nodes : List MetaExpression)
    {r : MetaExpression × List MetaExpression} (all more : List MetaExpression) (fuel : ℕ) {v : ℕ}
    → convert_expression regoffs e nodes ≡ ok r
    → lift_expression regoffs s e ≡ some v
    → all ≡ r.1 ++ more
    → height e ≤ fuel
    → lift_meta_expression fuel s all r.0 ≡ some v
unfolding convert_expression lift_expression lift_meta_expression convert_named load_named
lift-convert regoffs s null nodes all more fuel h k g f = cc
lift-convert regoffs s (unary op w e) nodes all more zero h k g f = absurd (omega arith)
lift-convert regoffs s (unary op w e) nodes {r} all more (suc fuel) h k g f =
    let u = unary-eq-ok regoffs op w nodes e h in
    let (a, ka, kb) = bind-eq-some (lift_expression regoffs s e) _ k in
    let g' : all ≡ with_child u.child ++ more = g ∙ ap (λ t. t.1 ++ more) u.result in
    let found = child_found u.child all more g' in
    let left =
      lift-convert regoffs s e nodes all (u.child.0 ∷ more) fuel u.converted ka
        (g' ∙ append_assoc u.child.1 (u.child.0 ∷ []) more) (omega arith) in
    rw (u.result, found, left) (apply_agrees op w u.width a 0 u.fits kb)
lift-convert regoffs s (binary op w e f) nodes all more zero h k g l = absurd (omega arith)
lift-convert regoffs s (binary op w e f) nodes all more (suc fuel) h k g l =
    let b = binary-eq-ok regoffs op w nodes e f h in
    let (x, kx, k1) = bind-eq-some (lift_expression regoffs s e) _ k in
    let (y, ky, k2) = bind-eq-some (lift_expression regoffs s f) _ k1 in
    let (extra, grown) = convert_grows regoffs f (with_child b.left) b.right_converted in
    let g2 : all ≡ with_child b.right ++ more = g ∙ ap (λ t. t.1 ++ more) b.result in
    let g1 : all ≡ with_child b.left ++ (extra ++ b.right.0 ∷ more) =
      g2 ∙ rw grown (regroup_right (with_child b.left) extra b.right.0 more) in
    let left =
      lift-convert regoffs s e nodes all (b.left.0 ∷ extra ++ b.right.0 ∷ more) fuel
        b.left_converted kx (g1 ∙ append_assoc b.left.1 (b.left.0 ∷ []) _) (omega arith) in
    let right =
      lift-convert regoffs s f (with_child b.left) all (b.right.0 ∷ more) fuel b.right_converted ky
        (g2 ∙ append_assoc b.right.1 (b.right.0 ∷ []) more) (omega arith) in
    rw (b.result, child_found b.left all _ g1, left, child_found b.right all more g2, right)
      (apply_agrees op w b.width x y b.fits k2)
lift-convert regoffs s (register reg size) nodes all more zero h k g f = absurd (omega arith)
lift-convert regoffs s (register reg size) nodes all more (suc fuel) h k g f = ground arith
lift-convert regoffs s (constant bits value) nodes all more zero h k g f = absurd (omega arith)
lift-convert regoffs s (constant bits value) nodes all more (suc fuel) h k g f =
    ground (arith, constant_back bits value)
lift-convert regoffs s (name reg) nodes all more zero h k g f = absurd (omega arith)
lift-convert regoffs s (name reg) nodes all more (suc fuel) h k g f = ground arith
