-- ===== src/Wire/Tests.antt =====
-- The wire formats on concrete numbers: runs, and the theorems applied to them.
use weft_warp_loop.Base.{◌^◌, ◌≤◌, ◌≡◌, true, arith}
use weft_warp_loop.Wire.Decimal.{pos, negsuc}
use weft_warp_loop.Wire.Zpb.{Zpb, parse_zpb_fields, print_zpb, parse_zpb_fields-print_zpb}
use weft_warp_loop.Wire.Units.{abs_magnitude, abs_magnitude_le}

abbrev moving : Zpb
moving = record { x = pos 1200; y = negsuc 6; z = pos 0; vx = negsuc 99; vy = pos 3; vz = pos 0 }

abbrev resting : Zpb
resting = record { x = pos 0; y = pos 0; z = pos 0; vx = pos 0; vy = pos 0; vz = pos 0 }

parse_zpb_fields-print_zpb_example : parse_zpb_fields (print_zpb moving) resting ≡ (true, moving)
parse_zpb_fields-print_zpb_example =
    parse_zpb_fields-print_zpb moving resting
      (omega arith, (omega arith, (omega arith, (omega arith, (omega arith, (omega arith, tt))))))

abs_magnitude_le_example : abs_magnitude (negsuc 99) ≤ 2 ^ 63
abs_magnitude_le_example = abs_magnitude_le (negsuc 99) (omega arith)
