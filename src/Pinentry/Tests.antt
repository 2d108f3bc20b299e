-- ===== src/Pinentry/Tests.antt =====
-- The theorem on src/pinentry.rs at a concrete password.
use openfortivpn_rs.Common.{true, false, [], ◌∷◌, ◌++◌, ◌≡◌, refl, arith}
use openfortivpn_rs.Common.Bytes.{codes}
use openfortivpn_rs.Common.Error.{ok}
use openfortivpn_rs.Common.Text.{is_utf8}
use openfortivpn_rs.Pinentry.{uri_escape, read_password}
use openfortivpn_rs.Pinentry.RoundTrip.{ok_line, commands, read_password-uri_escape}

read_password-uri_escape_example :
    read_password (codes "hint") (codes "VPN: ") true (record {
      stdout =
          ok_line
          ∷ ok_line
          ∷ ok_line
          ∷ ok_line
          ∷ ok_line
          ∷ (codes "D " ++ (uri_escape (codes "p%% ") ++ 10 ∷ []))
          ∷ [];
      stdin = [];
      killed = false;
    })
    ≡ (
      ok (codes "p%% "),
      record { stdout = []; stdin = commands (codes "hint") (codes "VPN: "); killed = false },
    )
read_password-uri_escape_example =
    read_password-uri_escape (codes "hint") (codes "VPN: ") (codes "p%% ") (ground arith)
      (unfold is_utf8 in refl)
