-- ===== src/Security.antt =====
-- pkg/vel/security.go: `SafeRelPath`, with `Clean` of path/filepath as its documentation puts it:
-- empty components and `.` are dropped, and `..` takes away the component before it.
pub mod Safe
mod Tests
use vel.Common.{
  Bool, List, Text, [], any, contains, eqb, has_prefix, if◌then◌else◌, lit, ◌==◌, ◌||◌, ◌∷◌,
}
use vel.Std.Values.{join, split}

-- One component on the stack, the last one first.
unfoldable pub push : Bool → List Text → Text → List Text
push rooted stack p =
    if (p == []) || (p == lit ".")
    then stack
    else if p == lit ".."
    then elim stack [
      | [] ↦ if rooted then [] else p ∷ []
      | top ∷ rest ↦ if top == lit ".." then p ∷ top ∷ rest else rest
    ]
    else p ∷ stack

unfoldable pub push_all : Bool → List Text → List Text → List Text
push_all rooted stack [] = stack
push_all rooted stack (p ∷ ps) = push_all rooted (push rooted stack p) ps

abbrev pub rev_onto : List Text → List Text → List Text
rev_onto [] ys = ys
rev_onto (x ∷ xs) ys = rev_onto xs (x ∷ ys)

-- The components that are left, in their order.
unfoldable pub clean_parts : Text → List Text
clean_parts path = rev_onto (push_all (has_prefix path (lit "/")) [] (split b'/' path)) []

unfoldable pub clean : Text → Text
clean path =
    let cleaned = join (lit "/") (clean_parts path) in
    if has_prefix path (lit "/") then b'/' ∷ cleaned else if cleaned == [] then lit "." else cleaned

pub data PathError : Type 0 where
  empty_path null_byte backslash dot_dot absolute escapes : PathError

pub data Checked : Type 0 where
  accepted : Text → Checked
  rejected : PathError → Checked

unfoldable pub safe_rel_path : Text → Checked
safe_rel_path path =
    let cleaned = clean path in
    if path == []
    then rejected empty_path
    else if any (λ c. eqb c 0) path
    then rejected null_byte
    else if any (λ c. eqb c b'\\') path
    then rejected backslash
    else if contains path (lit "..")
    then rejected dot_dot
    else if has_prefix cleaned (lit "/")
    then rejected absolute
    else if has_prefix cleaned (lit "..")
    then rejected escapes
    else accepted cleaned
