-- ===== src/Arith/Tests.antt =====
-- The arithmetic of 32-bit words.
use rv_mini_os.Prelude.{arith}
use rv_mini_os.Arith.{divide}
use rv_mini_os.Arith.Div.{Divides, divide-Divides}

divide-Divides_example : Divides 7 1000000 (divide 32 1000000 7)
divide-Divides_example = divide-Divides 31 1000000 7 (omega arith) (omega arith) (omega arith)
