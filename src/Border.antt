-- ===== src/Border.antt =====
-- ictp/border-router/border-routerUDP.c: what it adds to Contiki's border router, a table that is
-- filled by UDP and a page that shows it.
pub mod Laws
mod Tests
use ts_it.Base.{
  ℕ, ◌+◌, ◌-◌, ◌==◌, ltb, ◌||◌, if◌then◌else◌, Option, none, some, List, [], ◌∷◌, ◌++◌, length,
  take, drop, byte_at, codes, c_string, snprintf,
}

-- `messagefromdevice` has 36 numbers.
abbrev pub device_numbers : ℕ
device_numbers = 36

-- The callback of simple_udp. `words` are the 16-bit numbers that lie from the datagram's start on,
-- in it and behind it, and `datalen` are the datagram's bytes; `none` is a read or a write outside.
unfoldable pub receive_numbers : List ℕ → ℕ → List ℕ → Option (List ℕ)
receive_numbers words datalen table =
    if ltb device_numbers datalen || ltb (length words) datalen
    then none
    else some (take datalen words ++ drop datalen table)

-- A part of the format: text, `%d` of a number or of its absolute value, and `%c`.
pub data Piece : Type 0 where
  text : List ℕ → Piece
  number absolute sign : ℕ → Piece

-- `? '-' : ' '`
abbrev pub sign_char : ℕ → ℕ
sign_char n = if n == 1 then 0x2D else 0x20

-- How `%d` prints an `int`, and with abs().
pub record Printf : Type 0 where
  pub int : ℕ → List ℕ
  pub abs_int : ℕ → List ℕ

abbrev pub render : Printf → List Piece → List ℕ
render f [] = []
render f (text t ∷ ps) = t ++ render f ps
render f (number n ∷ ps) = f.int n ++ render f ps
render f (absolute n ∷ ps) = f.abs_int n ++ render f ps
render f (sign n ∷ ps) = sign_char n ∷ render f ps

-- Members of the page: two numbers with a point, and the same with a sign.
abbrev pub point : List ℕ → ℕ → ℕ → List Piece → List Piece
point label a b ps = text label ∷ number a ∷ text (codes ".") ∷ number b ∷ ps

abbrev pub signed_point : List ℕ → ℕ → ℕ → ℕ → List Piece → List Piece
signed_point label s a b ps = text label ∷ sign s ∷ absolute a ∷ text (codes ".") ∷ absolute b ∷ ps

-- The format of the page, with what it is given.
unfoldable pub page_format : List ℕ → List Piece
page_format table =
    let at = byte_at table in
    text (codes "{\"measures\":\n [{\"isActive\":true\n,\"guid\":aaaaaaaaa")
    ∷ point (codes "\n,\"pressure\":") (at 20) (at 21) (
        point (codes "\n,\"pressure_t\":") (at 22) (at 23) (
          point (codes "\n,\"humidity\":") (at 28) (at 29) (
            point (codes "\n,\"humidity_t\":") (at 30) (at 31) (
              text (codes "\n,\"battery\":")
              ∷ number (at 32)
              ∷ text (
                  codes
                    "\n,\"key1\":4\n,\"key2\":1\n,\"reed\":10\n,\"buzzer\":0\n,\"LED1\":0\n,\"LED2\":0\n,\"Radio\":6lowpan")
              ∷ point (codes "\n,\"objtemp\":") (at 26) (at 27) (
                  signed_point (codes "\n,\"accelX\":") (at 11) (at 12) (at 13) (
                    signed_point (codes "\n,\"accelY\":") (at 14) (at 15) (at 16) (
                      signed_point (codes "\n,\"accelZ\":") (at 17) (at 18) (at 19) (
                        signed_point (codes "\n,\"gyroX\":") (at 2) (at 3) (at 4) (
                          signed_point (codes "\n,\"gyroY\":") (at 5) (at 6) (at 7) (
                            signed_point (codes "\n,\"gyroZ\":") (at 8) (at 9) (at 10) (
                              text (codes "\n,\"magX\":0\n,\"magY\":0\n,\"magZ\":0")
                              ∷ point (codes "\n,\"light\":") (at 24) (at 25)
                                  (text (codes " \n}]}") ∷ []))))))))))))

abbrev pub page_buffer : ℕ
page_buffer = 256

-- generate_routes: what is sent, the buffer and `blen`; TOP and BOTTOM are empty.
unfoldable pub generate_routes : Printf → List ℕ → List ℕ → Option (List ℕ) × (List ℕ) × ℕ
unfolding page_format
generate_routes f table buffer =
    let page = render f (page_format table) in
    let buf = snprintf page_buffer page buffer in (c_string buf, buf, length page)
