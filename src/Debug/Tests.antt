-- ===== src/Debug/Tests.antt =====
-- A text that is typed in, and a row of the table.
use isucon7_final.Prelude.{◌*◌, ◌^◌, ◌≤◌, ◌≡◌, refl, true, []}
use isucon7_final.Js.Digits.{codes, digits_value}
use isucon7_final.Js.Decimal.{print}
use isucon7_final.Js.Float.{fractions}
use isucon7_final.Client.View.{ItemView}
use isucon7_final.Debug.Numbers.{accepted, is_positive, typed_power, with_zeros, double_zeros}
use isucon7_final.Debug.Numbers.Zeros.{typed_power-value}
use isucon7_final.Debug.Dom.{Document, create_element, set_attribute, find}
use isucon7_final.Debug.Table.{new_row, new_cells, set_attributes, set_row}
use isucon7_final.Debug.Table.Rows.{ShowsItem, set_row-ShowsItem}

twelve : typed_power (codes "12") (codes "5") ≡ accepted (codes "1200000")
unfolding typed_power with_zeros double_zeros digits_value
twelve = refl

typed_power-value_example :
    (digits_value 0 (codes "1200000")
      ≡ digits_value 0 (codes "12") * 10 ^ digits_value 0 (codes "5"))
    × (is_positive (codes "12") ≡ true)
    × (digits_value 0 (codes "5") ≤ 100000)
typed_power-value_example = typed_power-value (codes "12") (codes "5") (codes "1200000") twelve

abbrev page : Document
page = new_row 2

abbrev farm : ItemView ⦃D = fractions⦄
farm = record {
  count_built = 3;
  next_price = codes "5";
  power = codes "7";
  disabled = true;
  building = [];
}

set_row-ShowsItem_example :
    ShowsItem ⦃D = fractions⦄ 2 farm true (set_row ⦃D = fractions⦄ 2 farm true page)
unfolding new_row new_cells set_attributes set_attribute create_element find print
set_row-ShowsItem_example =
    set_row-ShowsItem ⦃D = fractions⦄ 2 farm true page (refl, refl, refl, refl, refl, refl)
