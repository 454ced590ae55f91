-- ===== src/Examples/SignIn.antt =====
-- The theorems about the sign-in, at the small board.
use tdiscuss.Base.{◌≡◌, refl, true, false, pos, arith}
use tdiscuss.Text.{Text, codes, text_eq}
use tdiscuss.Store.Tables.{row, call, find, update_where}
use tdiscuss.Store.Members.{CreateOrReturnIdRow, create_or_return_id, block_member}
use tdiscuss.Store.SignIn.{create_or_return_id-again, block_member-sign_in}
use tdiscuss.Examples.{db}

abbrev same : Text → Text
same s = s

abbrev ann_row : CreateOrReturnIdRow
ann_row = record { id = pos 1; is_admin = false; is_blocked = false }

first_visit : (create_or_return_id same (codes "ann@example.org") db).0 ≡ row ann_row
unfolding create_or_return_id call find text_eq
first_visit = refl

no_fault :
    tdiscuss.Store.Tables.next_fault
      (create_or_return_id same (codes "ann@example.org") db).1.faults
    ≡ false
unfolding create_or_return_id call find text_eq
no_fault = refl

create_or_return_id-again_example :
    let after = (create_or_return_id same (codes "ann@example.org") db).1 in
    ((create_or_return_id same (codes "ann@example.org") after).0 ≡ row ann_row)
    × ((create_or_return_id same (codes "ann@example.org") after).1.members ≡ after.members)
create_or_return_id-again_example =
    create_or_return_id-again same (codes "ann@example.org") db ann_row first_visit no_fault

abbrev blocked_row : CreateOrReturnIdRow
blocked_row = record ann_row { is_blocked = true }

ann_blocked : (block_member (pos 1) db).0 ≡ row tt
unfolding block_member call
ann_blocked = refl

next_visit :
    (create_or_return_id same (codes "ann@example.org") (block_member (pos 1) db).1).0
    ≡ row blocked_row
unfolding create_or_return_id block_member call find update_where text_eq
next_visit = refl

block_member-sign_in_example : blocked_row.is_blocked ≡ true
block_member-sign_in_example =
    block_member-sign_in same (codes "ann@example.org") (pos 1) db (1, refl, omega arith)
      ann_blocked blocked_row next_visit refl
