-- ===== src/HttpClient/Refusal.antt =====
-- What `Launch` leaves when curl gives no handle.
use m_toolkit.Base.{◌≡◌, refl, sym, true, false, none, some, add32}
use mathlib.Core.Path.{subst}
use m_toolkit.HttpClient.State.{HttpClient, HttpOptionType, curle_failed_init}
use m_toolkit.HttpClient.Setters.{response_clear}
use m_toolkit.HttpClient.Options.{Shared, setopts, share_handle}
use m_toolkit.HttpClient.Transfer.{Curl, initialize, launch}

-- Without a handle nothing is sent: the request fails, its error is counted, and the old response is
-- gone.
pub launch-no_handle :
    (curl : Curl) (option : HttpOptionType) (g : Shared) (c : HttpClient)
    → curl.easy_init ≡ false
    → launch curl option g c
      ≡ some (
        false,
        share_handle curl.share_init g,
        record c {
          is_first_write = true;
          curl = none;
          error_code = curle_failed_init;
          response = response_clear c.response;
          session = record c.session {
            count = add32 c.session.count 1;
            error_count = add32 c.session.error_count 1;
          };
        },
      )
unfolding launch initialize setopts
launch-no_handle curl option g c fails =
    subst
      (λ b.
        launch (record curl { easy_init = b }) option g c
        ≡ some (
          false,
          share_handle curl.share_init g,
          record c {
            is_first_write = true;
            curl = none;
            error_code = curle_failed_init;
            response = response_clear c.response;
            session = record c.session {
              count = add32 c.session.count 1;
              error_count = add32 c.session.error_count 1;
            };
          },
        ))
      (sym fails) refl
