-- ===== src/Lib.antt =====
-- The scripts of the kiosk page of familyplanner, and the parts of its server that they work with.
--
-- The kiosk page shows one view at a time, rotated by the server. Its script
-- internal/web/assets/kiosk.js listens to the server's event stream, fetches views and puts them on
-- the stage, paces what is on the stage, rotates a second playlist in a corner of the page, and takes
-- the keys of a remote. The other scripts beside it draw PDF pages, play videos, ring the quarters and
-- edit layouts. On the server a layout is a tree of panes, a playlist has a cursor, and a scheduler
-- decides which chime is due; what they decide reaches the page over the stream.
--
-- How the files correspond to the script, by the names of its functions and variables:
-- Kiosk/Reload.antt: `tick` and `maybeNightlyReload`, with the state that the page has and loses.
-- Kiosk/Countdown.antt: `fmtCountdown`, as the bytes of its text; Kiosk/Countdown/Tick.antt:
-- `tickCountdowns`.
-- Kiosk/Scroll.antt: `setupCellScroll` and its `frame`, for one cell.
-- Kiosk/Slideshow.antt: `fpShuffle`, `startSlideshows` and `__fpStep`, for one album;
-- Kiosk/Slideshow/Timer.antt: its timer, `tick` and `__fpReset`.
-- Kiosk/State.antt: what the parts share: the boxes and widgets that the queries of the script find, the
-- requests that `fetch` has in flight, and the calls that a handler makes (`Effect`).
-- Kiosk/Overlay.antt: `ovState`, `renderScreens`, `setOverlay`, `loadSelectedScreen` and their keys.
-- Kiosk/Manual.antt: `focusIdx`, `frozenEl`, `freezeFocused`, `focusWidget`, `scrollFocused`,
-- `exitManual` and `zoomFocusedPdf`.
-- Kiosk/Stage.antt: `currentViewID`, `overrideViewID`, `viewNames`, `loadView`, `updateViewLabel`,
-- `loadTransient` and `scheduleEndFallback`; Kiosk/Stage/Listen.antt: the listeners on the stream;
-- Kiosk/Stage/Listen/LostPdf.antt: the stage together with a PDF widget.
-- Kiosk/Watchdog.antt: `beat` and the inline script of internal/web/kiosk.templ that reloads a page whose
-- beats have stopped, which begins anew with the load; Kiosk/Stage/Listen/Beats.antt and Current.antt: the same beats and the shown view in
-- the listeners.
-- Kiosk/Pip.antt: `pipRotate`, `pipNext`, `pipPrev`, `pipStart`, `pipProgress`, `fpPip.toggle` and the `pip` listener.
-- Kiosk/Keys.antt: the `keydown` listener, which puts the overlays, the focus, the corner and the
-- rotation together: an overlay that took the key ends the listener; otherwise Escape leaves the focus,
-- Ctrl is for the focus, Shift for the corner, and the plain arrows for the rotation.
-- Prelude.antt and below: the numbers, tests and list lemmas that all of them use.
-- Ring.antt: the interface of what goes round the ends of a list. The corner, the focus, the pages of a PDF
-- and the list of a player fill it, each in a file Walk.antt below its own.
-- Pdf/Slides.antt: internal/web/assets/pdf-widget.js, one widget: `setupPdf`, `render`, `scheduleSlide`,
-- `fpPdfScroll`, `stepPage` and `fpPdfStep`; Pdf/Slides/Chain.antt: the promises of `render`, page by page;
-- Pdf/Slides/Badge.antt: `updatePageNo`, with the badge that a slide shows;
-- Pdf/Roll.antt: `autoScroll` beside the timer of `scheduleSlide`; Pdf/Zoom.antt: `fpPdfZoomEl`;
-- Pdf/Fit.antt: the scale of a page in `render`; Pdf/Setup.antt: `fpSetupPdfs`.
-- VoiceClock.antt: internal/web/assets/voiceclock.js: `playSound` with the functions of its sounds,
-- `runChime`, `speakThenPips` and `fpSnooze`; VoiceClock/Tone.antt: `bell` and `beep`;
-- VoiceClock/Hour.antt: `dutchHour`, `fpTestQuarter` and `fpTestHour`; VoiceClock/Voice.antt: `setVoice`;
-- VoiceClock/Audio.antt: `audio` and `unlock`; VoiceClock/Snooze.antt: `paintSnooze` and `fpSnooze`, with a
-- storage that may throw.
-- Videos.antt: internal/web/assets/yt.js: `makePlayer`, its `onStateChange`, and `fpVideosIn`;
-- Videos/Loading.antt: `loadAPI`, `whenReady` and `onYouTubeIframeAPIReady`;
-- Videos/Loading/Stage.antt: `fpSetupVideos`.
-- ClockFace/Week.antt: internal/web/assets/clockface.js: `isoWeek`; ClockFace/Loop.antt: `fpSetupClocks`,
-- `setupClock` and `startAnim`; ClockFace/Panel.antt: the angles of `startAnim` and `sunMark`, and the
-- texts of `updateText`.
-- Widgets.antt: the set-ups of videos, PDFs and clocks in `loadView`, over those of the scripts.
-- Layout.antt: internal/web/assets/layouteditor.js: the listeners of the drag.
-- Preview.antt: internal/web/assets/kiosk-preview.js.
-- Server/Tree.antt: internal/layout/layout.go: `Node`, `Validate`, `SplitLeaf`, `Remove`, `SetWidget`
-- and `SetWeight`, at paths of child indices.
-- Server/Rotation.antt: internal/rotation/rotation.go: `State` and the commands of `Manager` on it.
-- Server/Devices.antt: `Manager` of the same file, with its table, connections, signals and buffers.
-- Server/Stream.antt: `handleKioskStream` of internal/server/server.go, joined with the listeners of the page.
-- Server/Chimes.antt: internal/voiceclock/voiceclock.go: `Decide`, `InQuiet`, `NextBoundary` and
-- `Lead`, with `chimeDelay` of internal/server/server.go, joined with `runChime` of the page.
-- Server/Cache.antt: internal/broker/broker.go: `RefreshWidget`, `markErr`, `refreshCap`, `refreshExpired`, over
-- the statements of internal/db/query/cache.sql.
-- Server/Shows.antt: `bgRefresh` of internal/server/server.go.
--
-- How the scripts are read:
-- A handler is a function from the state to the state, with the list of its calls where it makes any.
-- A fetch is two steps: the call puts a request into `pending`, and the answer at any place of that
-- list comes later, so answers may come in any order or never. A timer that was set is in the state
-- until it runs or is cleared. The page's elements are records of what the script's queries return.
-- A call of `location.reload()` ends the page that makes it: a run of Kiosk/Stage/Listen is of one page, and
-- what the next page begins with is in Kiosk/Watchdog and Kiosk/Reload.
-- Numbers are exact where the script computes with doubles: a cell's position is a numerator over
-- 38 times the cycle's length in milliseconds, since the script divides by 0.38 of the cycle; the position
-- of a focused scroller is counted in fifths of a pixel, since a step is 0.4 of its height. The shuffle
-- multiplies an index by 2654435761, which a double holds exactly for albums below three million photos.
-- Dwells and intervals are integers, as the server sends them. A scroll position of a PDF is in halves
-- of a pixel, since a step is half the height. The voice clock counts in milliseconds and hundredths
-- of a hertz. The animations of clocks and of PDF pages have their requested frames in the state. The
-- dates of the week number are a year and a day in it; the angles of the hands are whole parts of a
-- degree, and rounding to hundredths and to four decimals is rounding half up of the exact value.
-- Weights of the server's layouts are in ten-thousandths; the times of the beats are in milliseconds and
-- those of the scheduler in seconds of the day, with its lead in milliseconds; the cache counts in seconds. Widths and positions in
-- the layout editor are in 64ths of a pixel. The size of a canvas is the floor of the exact product. YouTube's script is an event: it defines its players and calls the callback in
-- one step. The only fuel is that of the digits of a number `n`, `n + 1`, which is enough since a
-- number has fewer digits than its successor; every other loop of the scripts goes over a list or
-- counts down.
--
-- Not modelled: of kiosk.js the texts of dates and clocks, the markup, the style of transitions and
-- the bar of the stage, the ticker's fetch and the wake lock; of pdf-widget.js the drawing; of voiceclock.js the
-- rate of speech and the calls of the audio API; of yt.js muting, pausing and the options of a player; of
-- clockface.js the markup and the ticks of the dial and the text of the date; htmx and pdf.js, which are
-- others' libraries; of the server the store, the tokens and the health of sources, the widgets, the admin
-- pages, the messages of the corner, the names of the rates of a chime, and the parsing of HH:MM.
pub mod Prelude
pub mod Ring
pub mod Kiosk
pub mod Pdf
pub mod VoiceClock
pub mod Videos
pub mod ClockFace
pub mod Layout
pub mod Widgets
pub mod Preview
pub mod Server
